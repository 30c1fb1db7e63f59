-- ===== src/State/Thread.antt =====
-- internal/runtime/state/thread.go: the stack and the frames of a thread.
use vex_lua.Base.{
  ℕ, ◌+◌, ◌-◌, ◌*◌, ◌/◌, ◌^◌, ◌%◌, not, ◌||◌, List, length, get_or, set, Option, none, some, ltb,
  leb, ◌==◌, if◌then◌else◌, Result, ok, err, ◌>>=◌, ◌>>◌, guard,
}
use vex_lua.Value.Header.{with_bits}
use vex_lua.State.Frame.{
  CallFrameHeader, FrameError, blank_frame, call_frame_header_size, slot_size,
  frame_flag_is_lua_frame, frame_flag_has_vararg, validate_frame, register_address, spill_address,
  slot_range, slot_misaligned, frame_range, frame_misaligned, frames_exhausted, stack_exhausted,
  no_frame,
}

pub record FrameSpec : Type 0 where
  pub closure : ℕ
  pub proto : ℕ
  pub register_base : ℕ
  pub const_base : ℕ
  pub vararg_base : ℕ
  pub result_base : ℕ
  pub saved_bc_off : ℕ
  pub flags : ℕ
  pub n_results : ℕ
  pub vararg_count : ℕ
  pub register_count : ℕ
  pub spill_count : ℕ
  pub top : ℕ
  pub result_cap : ℕ

-- The thread, with the fields of its native header that change: the address of the current frame, 0
-- for none, and the head of the list of open upvalues.
pub record ThreadState : Type 0 where
  pub id : ℕ
  pub stack_base : ℕ
  pub frame_base : ℕ
  pub stack : List ℕ
  pub frames : List CallFrameHeader
  pub current_frame : ℕ
  pub open_upvalue_head : ℕ

-- `SetOpenUpvalueHead`
abbrev pub with_head : ThreadState → ℕ → ThreadState
with_head t ref = record t { open_upvalue_head = ref }

unfoldable pub slot_index : ThreadState → ℕ → Result FrameError ℕ
slot_index t address = do
  guard (not (ltb address t.stack_base)) (slot_range address)
  guard ((address - t.stack_base) % slot_size == 0) (slot_misaligned address)
  guard (ltb ((address - t.stack_base) / slot_size) (length t.stack)) (slot_range address)
  ok ((address - t.stack_base) / slot_size)

unfoldable pub slot_address : ThreadState → ℕ → Result FrameError ℕ
slot_address t index = do
  guard (ltb index (length t.stack)) (slot_range index)
  ok ((t.stack_base + index * slot_size) % 2 ^ 64)

unfoldable pub value_at_address : ThreadState → ℕ → Result FrameError ℕ
unfolding slot_index
value_at_address t address = do index ← slot_index t address; ok (get_or t.stack index 0)

unfoldable pub set_value_at_address : ThreadState → ℕ → ℕ → Result FrameError ThreadState
unfolding slot_index
set_value_at_address t address value = do
  index ← slot_index t address
  ok (record t { stack = set t.stack index value })

unfoldable pub frame_address : ThreadState → ℕ → Result FrameError ℕ
frame_address t index = do
  guard (ltb index (length t.frames)) (frame_range index)
  ok ((t.frame_base + index * call_frame_header_size) % 2 ^ 64)

-- The index behind `FrameAtAddress` and `currentFrameIndex`.
unfoldable pub frame_index : ThreadState → ℕ → Result FrameError ℕ
frame_index t address = do
  guard (not (ltb address t.frame_base)) (frame_range address)
  guard ((address - t.frame_base) % call_frame_header_size == 0) (frame_misaligned address)
  guard (ltb ((address - t.frame_base) / call_frame_header_size) (length t.frames))
      (frame_range address)
  ok ((address - t.frame_base) / call_frame_header_size)

unfoldable pub frame_at_address : ThreadState → ℕ → Result FrameError CallFrameHeader
unfolding frame_index
frame_at_address t address = do
  index ← frame_index t address
  ok (get_or t.frames index blank_frame)

-- No index stands for Go's -1.
unfoldable pub current_frame_index : ThreadState → Result FrameError (Option ℕ)
unfolding frame_index
current_frame_index t =
    if t.current_frame == 0
    then ok none
    else (do index ← frame_index t t.current_frame; ok (some index))

-- No frame stands for Go's nil.
unfoldable pub current_frame_header : ThreadState → Option CallFrameHeader
unfolding current_frame_index
current_frame_header t = elim (current_frame_index t) [
  | err e ↦ none
  | ok none ↦ none
  | ok (some index) ↦ some (get_or t.frames index blank_frame)
]

unfoldable pub current_frame_address : ThreadState → ℕ
unfolding current_frame_index
current_frame_address t = elim (current_frame_index t) [
  | err e ↦ 0
  | ok none ↦ 0
  | ok (some index) ↦ t.current_frame
]

unfoldable pub previous_frame : ThreadState → Result FrameError (Option CallFrameHeader)
unfolding current_frame_header frame_at_address
previous_frame t = elim (current_frame_header t) [
  | none ↦ ok none
  | some frame ↦
      if frame.prev_frame == 0
      then ok none
      else (do below ← frame_at_address t frame.prev_frame; ok (some below))
]

-- The slots of a frame's window: the index of the first one and their number.
unfoldable pub frame_window : ThreadState → CallFrameHeader → Result FrameError (ℕ × ℕ)
unfolding slot_index
frame_window t frame = do
  base ← slot_index t frame.regs_base
  guard (leb (base + (frame.register_count + frame.spill_count)) (length t.stack)) stack_exhausted
  ok (base, frame.register_count + frame.spill_count)

unfoldable pub next_register_base : ThreadState → Result FrameError ℕ
unfolding current_frame_index slot_index
next_register_base t = do
  current ← current_frame_index t
  elim current [
    | none ↦ ok 0
    | some index ↦
        (let frame = get_or t.frames index blank_frame in
          (do
            base ← slot_index t frame.regs_base
            ok ((base + frame.register_count + frame.spill_count) % 2 ^ 32)))
  ]

abbrev pub next_index : Option ℕ → ℕ
next_index none = 0
next_index (some index) = index + 1

-- The frame that a specification describes.
unfoldable pub framed : FrameSpec → ℕ → ℕ → CallFrameHeader
unfolding with_bits
framed spec regs_base prev_frame =
    let lua = with_bits spec.flags frame_flag_is_lua_frame in
    record {
      prev_frame = prev_frame;
      caller_ret_pc = 0;
      closure = spec.closure;
      proto = spec.proto;
      regs_base = regs_base;
      const_base = spec.const_base;
      vararg_base = spec.vararg_base;
      saved_bc_off = spec.saved_bc_off;
      flags =
          if not (spec.vararg_base == 0) || not (spec.vararg_count == 0)
          then with_bits lua frame_flag_has_vararg
          else lua;
      n_results = spec.n_results;
      vararg_count = spec.vararg_count;
      register_count = spec.register_count;
      spill_count = spec.spill_count;
      result_base = spec.result_base;
      top = spec.top;
      result_cap = spec.result_cap;
    }

abbrev pub previous_address : ThreadState → Option ℕ → Result FrameError ℕ
previous_address t none = ok 0
previous_address t (some index) = frame_address t index

-- The thread with a frame at an index of the arena, as the current one.
unfoldable pub with_frame : ThreadState → ℕ → CallFrameHeader → ThreadState
with_frame t index frame = record t {
  frames = set t.frames index frame;
  current_frame = (t.frame_base + index * call_frame_header_size) % 2 ^ 64;
}

-- `PushFrame`, which returns the frame at its index of the arena.
unfoldable pub push_frame :
    ThreadState → FrameSpec → Result FrameError (ThreadState × CallFrameHeader)
unfolding current_frame_index slot_address framed frame_address validate_frame with_frame
push_frame t spec = do
  current ← current_frame_index t
  guard (ltb (next_index current) (length t.frames)) frames_exhausted
  guard
      (leb ((spec.register_base + spec.register_count + spec.spill_count) % 2 ^ 32)
        (length t.stack))
      stack_exhausted
  regs_base ← slot_address t spec.register_base
  previous ← previous_address t current
  let frame = framed spec regs_base previous
  validate_frame frame
  ok (with_frame t (next_index current) frame, frame)

-- The address of the frame below the current one, 0 for none.
abbrev pub below_address : ThreadState → ℕ → ℕ
below_address t index =
    if index == 0 then 0 else (t.frame_base + (index - 1) * call_frame_header_size) % 2 ^ 64

-- The thread without the frame at an index, which is the current one.
abbrev pub popped : ThreadState → ℕ → ThreadState
popped t index = record t {
  frames = set t.frames index blank_frame;
  current_frame = below_address t index;
}

unfoldable pub pop_frame : ThreadState → Result FrameError (ThreadState × CallFrameHeader)
unfolding current_frame_index
pop_frame t = do
  current ← current_frame_index t
  elim current [
    | none ↦ err no_frame
    | some index ↦ ok (popped t index, get_or t.frames index blank_frame)
  ]

unfoldable pub register : ThreadState → CallFrameHeader → ℕ → Result FrameError ℕ
unfolding register_address value_at_address
register t frame index = do address ← register_address frame index; value_at_address t address

unfoldable pub set_register : ThreadState → CallFrameHeader → ℕ → ℕ → Result FrameError ThreadState
unfolding register_address set_value_at_address
set_register t frame index value = do
  address ← register_address frame index
  set_value_at_address t address value

unfoldable pub spill : ThreadState → CallFrameHeader → ℕ → Result FrameError ℕ
unfolding spill_address value_at_address
spill t frame index = do address ← spill_address frame index; value_at_address t address

unfoldable pub set_spill : ThreadState → CallFrameHeader → ℕ → ℕ → Result FrameError ThreadState
unfolding spill_address set_value_at_address
set_spill t frame index value = do
  address ← spill_address frame index
  set_value_at_address t address value
