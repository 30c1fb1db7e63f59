-- ===== src/Heap.antt =====
-- internal/runtime/heap: the spans, the pages and the arena of the heap, as records.
-- Memory is a function from offsets to bytes; a Go slice of the arena is the list of its bytes. The
-- platform's calls (the page size, the reservation, the commits) are parameters, and so is the order
-- in which Go's `range` visits the keys of a map. Words are below 2 ^ 64 and sums of them wrap there.
mod Tests
pub mod Memory
pub mod Pages
pub mod Controller
pub mod Span
pub mod Access
pub mod Lifetime
pub mod Barrier
pub mod Invariant
pub mod Kept
pub mod Resolve
pub mod Headers
pub mod Freed
pub mod Walk
pub mod Queues
pub mod TriColour
pub mod Exhausted
pub mod BestFit
pub mod Running
pub mod Made
pub mod Best
pub mod Fresh
pub mod Outcome
pub mod Appended
pub mod Reused
use vex_lua.Base.{
  ℕ, ◌+◌, ◌*◌, ◌^◌, ◌%◌, ◌-◌, Bool, true, false, List, Option, some, ◌==◌, if◌then◌else◌,
}
use vex_lua.Base.Bits.{and_not}
use vex_lua.Value.Header.{HeaderError}
use vex_lua.Value.Address.{AddressError}

abbrev pub default_page_size : ℕ
default_page_size = 64 * 1024

abbrev pub default_heap_base : ℕ
default_heap_base = 0x100000000000

abbrev pub default_native_reserve_size : ℕ
default_native_reserve_size = 1 * 1024 * 1024 * 1024

pub data SpanKind : Type 0 where
  kind_invalid kind_object kind_payload : SpanKind

pub data SpanState : Type 0 where
  state_invalid state_live state_free : SpanState

-- Payload layouts are `uint8`; the heap itself tells only the first from the others.
abbrev pub layout_none : ℕ
layout_none = 0

abbrev pub layout_opaque : ℕ
layout_opaque = 1

pub record SpanMetadata : Type 0 where
  pub kind : SpanKind
  pub state : SpanState
  pub layout : ℕ
  pub owner : ℕ
  pub size : ℕ
  pub address : ℕ

pub record AllocationSpan : Type 0 where
  pub start : ℕ
  pub size : ℕ
  pub metadata : SpanMetadata

pub record Page : Type 0 where
  pub start : ℕ
  pub size : ℕ
  pub used : ℕ

-- `Allocation`, whose `Bytes` are the memory from `offset` on.
pub record Allocation : Type 0 where
  pub offset : ℕ
  pub address : ℕ
  pub size : ℕ

-- `reservedNativeArena`
pub record Arena : Type 0 where
  pub native_base : ℕ
  pub reserved_size : ℕ
  pub page_size : ℕ

pub data GcPhase : Type 0 where
  gc_phase_pause gc_phase_mark gc_phase_atomic gc_phase_sweep_strings gc_phase_sweep_objects :
      GcPhase
  gc_phase_finalize : GcPhase

pub record GcController : Type 0 where
  pub phase : GcPhase
  pub current_white : ℕ
  pub threshold : ℕ
  pub next_trigger : ℕ
  pub step_budget : ℕ
  pub live_bytes : ℕ
  pub gray : List ℕ
  pub gray_again : List ℕ
  pub weak : List ℕ
  pub finalize : List ℕ
  pub remembered : List ℕ

pub record Heap : Type 0 where
  pub base : ℕ
  pub page_size : ℕ
  pub pages : List Page
  pub allocations : ℕ → Option AllocationSpan
  pub span_order : List ℕ
  pub next_page : ℕ
  pub native : Arena
  pub gc : GcController
  pub memory : ℕ → ℕ

pub data HeapError : Type 0 where
  zero_size zero_offset no_layout bad_kind state_unset : HeapError
  page_too_small unknown_span unknown_owner owner_not_object : ℕ → HeapError
  exhausted commit_failed offset_overflow exceeds_reservation out_of_range : ℕ → HeapError
  not_heap_memory misaligned_address not_start not_live not_object not_payload : ℕ → HeapError
  bad_white : ℕ → HeapError
  no_page_size reserve_failed : HeapError
  header_error : HeaderError → HeapError
  address_error : AddressError → HeapError

-- The platform: its page size and its reservation, where it grants them, and whether it commits the
-- first so many bytes of one. `order` is the order in which `range` visits the keys of a map.
pub record Platform : Type 0 where
  pub os_page_size : Option ℕ
  pub reserve : ℕ → Option ℕ
  pub commits : ℕ → Bool
  pub order : (ℕ → Option AllocationSpan) → List ℕ

abbrev pub is_free : SpanState → Bool
is_free state_free = true
is_free state_live = false
is_free state_invalid = false

abbrev pub is_live : SpanState → Bool
is_live state_live = true
is_live state_free = false
is_live state_invalid = false

abbrev pub is_object : SpanKind → Bool
is_object kind_object = true
is_object kind_payload = false
is_object kind_invalid = false

abbrev pub is_payload : SpanKind → Bool
is_payload kind_payload = true
is_payload kind_object = false
is_payload kind_invalid = false

-- `m[key] = value`
unfoldable pub insert {ℓ} : {A : Type ℓ} → ℕ → A → (ℕ → Option A) → ℕ → Option A
insert key value m k = if k == key then some value else m k

unfoldable pub align_up : ℕ → ℕ → ℕ
unfolding and_not
align_up v alignment =
    if alignment == 0 then v else and_not ((v + (alignment - 1)) % 2 ^ 64) (alignment - 1)
