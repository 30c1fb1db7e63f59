-- ===== src/State/Frame.antt =====
-- internal/runtime/state/frame.go: the header of a call frame, without its reserved words.
use vex_lua.Base.{
  ℕ, ◌+◌, ◌*◌, ◌^◌, ◌%◌, Bool, not, ◌||◌, ltb, leb, ◌==◌, if◌then◌else◌, Result, ok, ◌>>◌, guard,
}
use vex_lua.Value.Header.{has, with_bits, without}

abbrev pub call_frame_header_size : ℕ
call_frame_header_size = 0x60

abbrev pub slot_size : ℕ
slot_size = 8

abbrev pub frame_flag_is_lua_frame : ℕ
frame_flag_is_lua_frame = 1

abbrev pub frame_flag_has_vararg : ℕ
frame_flag_has_vararg = 2

pub record CallFrameHeader : Type 0 where
  pub prev_frame : ℕ
  pub caller_ret_pc : ℕ
  pub closure : ℕ
  pub proto : ℕ
  pub regs_base : ℕ
  pub const_base : ℕ
  pub vararg_base : ℕ
  pub saved_bc_off : ℕ
  pub flags : ℕ
  pub n_results : ℕ
  pub vararg_count : ℕ
  pub register_count : ℕ
  pub spill_count : ℕ
  pub result_base : ℕ
  pub top : ℕ
  pub result_cap : ℕ

pub data FrameError : Type 0 where
  zero_base no_vararg_flag no_result_base no_frame : FrameError
  misaligned top_range register_range spill_range : ℕ → FrameError
  slot_range slot_misaligned frame_range frame_misaligned : ℕ → FrameError
  frames_exhausted stack_exhausted : FrameError

-- `CallFrameHeader{}`
abbrev pub blank_frame : CallFrameHeader
blank_frame = record {
  prev_frame = 0;
  caller_ret_pc = 0;
  closure = 0;
  proto = 0;
  regs_base = 0;
  const_base = 0;
  vararg_base = 0;
  saved_bc_off = 0;
  flags = 0;
  n_results = 0;
  vararg_count = 0;
  register_count = 0;
  spill_count = 0;
  result_base = 0;
  top = 0;
  result_cap = 0;
}

abbrev aligned_or_nil : ℕ → Bool
aligned_or_nil address = address == 0 || address % slot_size == 0

-- The counts are `uint16`, and so is their sum.
abbrev pub slot_count : CallFrameHeader → ℕ
slot_count frame = (frame.register_count + frame.spill_count) % 2 ^ 16

unfoldable pub set_flag : CallFrameHeader → ℕ → Bool → CallFrameHeader
unfolding with_bits without
set_flag frame flag enabled = record frame {
  flags = if enabled then with_bits frame.flags flag else without frame.flags flag;
}

-- `Validate`, whose first step compares constants of the layout.
unfoldable pub validate_frame : CallFrameHeader → Result FrameError (Unit {0})
unfolding has
validate_frame frame = do
  guard (not (frame.regs_base == 0)) zero_base
  guard (frame.regs_base % slot_size == 0) (misaligned frame.regs_base)
  guard (aligned_or_nil frame.const_base) (misaligned frame.const_base)
  guard (aligned_or_nil frame.vararg_base) (misaligned frame.vararg_base)
  guard (aligned_or_nil frame.result_base) (misaligned frame.result_base)
  guard (frame.vararg_count == 0 || has frame.flags frame_flag_has_vararg) no_vararg_flag
  guard (leb frame.top (slot_count frame)) (top_range frame.top)
  guard (frame.result_cap == 0 || not (frame.result_base == 0)) no_result_base

unfoldable pub set_top : CallFrameHeader → ℕ → Result FrameError CallFrameHeader
set_top frame top = do
  guard (leb top (slot_count frame)) (top_range top)
  ok (record frame { top = top })

unfoldable pub set_result_capacity : CallFrameHeader → ℕ → Result FrameError CallFrameHeader
set_result_capacity frame capacity = do
  guard (capacity == 0 || not (frame.result_base == 0)) no_result_base
  ok (record frame { result_cap = capacity })

unfoldable pub register_address : CallFrameHeader → ℕ → Result FrameError ℕ
register_address frame index = do
  guard (ltb index frame.register_count) (register_range index)
  ok ((frame.regs_base + index * slot_size) % 2 ^ 64)

unfoldable pub spill_address : CallFrameHeader → ℕ → Result FrameError ℕ
spill_address frame index = do
  guard (ltb index frame.spill_count) (spill_range index)
  ok (((frame.regs_base + frame.register_count * slot_size) % 2 ^ 64 + index * slot_size) % 2 ^ 64)

unfoldable pub result_address : CallFrameHeader → ℕ → Result FrameError ℕ
result_address frame index = do
  guard (not (frame.result_base == 0)) no_result_base
  ok ((frame.result_base + index * slot_size) % 2 ^ 64)
