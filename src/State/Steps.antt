-- ===== src/State/Steps.antt =====
-- What happens to a thread from `NewThread` on: the calls that change it, in any order.
mod Tests
pub mod Kept
pub mod Reached
pub mod Frames
pub mod Stacked
use vex_lua.Base.{
  ℕ, ◌^◌, ◌<◌, ◌≡◌, Bool, get_or, set, replicate, ◌==◌, if◌then◌else◌, Result, ok, ◌>>=◌,
}
use vex_lua.Value.TValue.{Panic, nil_value}
use vex_lua.State.Frame.{CallFrameHeader, blank_frame, set_flag, set_top, set_result_capacity}
use vex_lua.State.Thread.{
  ThreadState, FrameSpec, push_frame, pop_frame, set_value_at_address, set_register, set_spill,
  with_head,
}

abbrev pub default_stack_slots : ℕ
default_stack_slots = 256

abbrev pub default_frame_slots : ℕ
default_frame_slots = 64

-- `NewThread`, for the id that the machine gives it and the addresses of its two arenas.
unfoldable pub new_thread : ℕ → ℕ → ℕ → ℕ → ℕ → Result Panic ThreadState
unfolding nil_value
new_thread id stack_base frame_base stack_slots frame_capacity = do
  nil ← nil_value
  ok (record {
    id = id;
    stack_base = stack_base;
    frame_base = frame_base;
    stack = replicate (if stack_slots == 0 then default_stack_slots else stack_slots) nil;
    frames =
        replicate (if frame_capacity == 0 then default_frame_slots else frame_capacity) blank_frame;
    current_frame = 0;
    open_upvalue_head = 0;
  })

-- The header at an index of the arena, in use or not.
abbrev pub header_at : ThreadState → ℕ → CallFrameHeader
header_at t index = get_or t.frames index blank_frame

-- The thread after a call has changed a header through the pointer to it.
abbrev pub with_header : ThreadState → ℕ → CallFrameHeader → ThreadState
with_header t index frame = record t { frames = set t.frames index frame }

-- One call. The counts of a specification are of type `uint16`.
pub data Step (t : ThreadState) : ThreadState → Type 0 where
  pushes :
      {t' : ThreadState} (spec : FrameSpec) (frame : CallFrameHeader)
      → spec.register_count < 2 ^ 16
      → spec.spill_count < 2 ^ 16
      → push_frame t spec ≡ ok (t', frame)
      → Step t t'
  pops : {t' : ThreadState} (frame : CallFrameHeader) → pop_frame t ≡ ok (t', frame) → Step t t'
  stores :
      {t' : ThreadState} (address value : ℕ)
      → set_value_at_address t address value ≡ ok t'
      → Step t t'
  registers :
      {t' : ThreadState} (frame : CallFrameHeader) (i value : ℕ)
      → set_register t frame i value ≡ ok t'
      → Step t t'
  spills :
      {t' : ThreadState} (frame : CallFrameHeader) (i value : ℕ)
      → set_spill t frame i value ≡ ok t'
      → Step t t'
  heads : (ref : ℕ) → Step t (with_head t ref)
  flags :
      (index flag : ℕ) (enabled : Bool)
      → Step t (with_header t index (set_flag (header_at t index) flag enabled))
  tops :
      (index top : ℕ) {frame : CallFrameHeader}
      → set_top (header_at t index) top ≡ ok frame
      → Step t (with_header t index frame)
  capacities :
      (index capacity : ℕ) {frame : CallFrameHeader}
      → set_result_capacity (header_at t index) capacity ≡ ok frame
      → Step t (with_header t index frame)

pub data Reach (t : ThreadState) : ThreadState → Type 0 where
  here : Reach t t
  later : {u v : ThreadState} → Reach t u → Step u v → Reach t v
