-- ===== src/State/Steps/Tests.antt =====
-- A thread that makes two calls, and instances of its laws.
use vex_lua.Base.{ℕ, ◌≡◌, refl, [], length, Result, ok, err, arith}
use vex_lua.Value.TValue.{Panic, boxed_value, nil_value}
use vex_lua.Value.Header.{has, with_bits, without}
use vex_lua.State.Frame.{
  CallFrameHeader, FrameError, validate_frame, register_address, spill_address, set_flag, set_top,
  set_result_capacity,
}
use vex_lua.State.Thread.{
  ThreadState, FrameSpec, slot_index, slot_address, set_value_at_address, frame_index,
  frame_address, frame_at_address, current_frame_index, current_frame_header, previous_frame,
  framed, with_frame, push_frame, pop_frame, set_register, set_spill,
}
use vex_lua.State.Window.{IsThread}
use vex_lua.State.Steps.{new_thread, Reach, here, later, pushes, registers}
use vex_lua.State.Steps.Stacked.{IsStacked}
use vex_lua.State.Steps.Reached.{new_thread-Reach-IsStacked, previous_frame-pop_frame}

program : Unit {0}
unfolding nil_value boxed_value has with_bits without validate_frame register_address spill_address
    slot_index slot_address set_flag set_top set_result_capacity set_value_at_address frame_index
    frame_address frame_at_address current_frame_index current_frame_header previous_frame framed
    with_frame push_frame pop_frame set_register set_spill new_thread
program = tt

abbrev thread_of : Result Panic ThreadState → ThreadState
thread_of (ok t) = t
thread_of (err e) = record {
  id = 0;
  stack_base = 0;
  frame_base = 0;
  stack = [];
  frames = [];
  current_frame = 0;
  open_upvalue_head = 0;
}

abbrev thread : ThreadState
thread = thread_of (new_thread 1 0x1000 0x2000 12 3)

thread-IsThread : IsThread thread
unfolding program
thread-IsThread = record {
  stack_inside = omega arith;
  few_slots = omega arith;
  frames_inside = omega arith;
  some_base = omega arith;
}

abbrev call : ℕ → FrameSpec
call base = record {
  closure = 7;
  proto = 8;
  register_base = base;
  const_base = 0;
  vararg_base = 0;
  result_base = 0;
  saved_bc_off = 0;
  flags = 0;
  n_results = 0;
  vararg_count = 0;
  register_count = 3;
  spill_count = 1;
  top = 2;
  result_cap = 0;
}

abbrev after : ThreadState → Result FrameError (ThreadState × CallFrameHeader) → ThreadState
after t (ok (t', frame)) = t'
after t (err e) = t

abbrev stored : ThreadState → Result FrameError ThreadState → ThreadState
stored t (ok t') = t'
stored t (err e) = t

abbrev outer : CallFrameHeader
outer = framed (call 0) 0x1000 0

abbrev inner : CallFrameHeader
inner = framed (call 4) 0x1020 0x2000

abbrev outer_called : ThreadState
outer_called = after thread (push_frame thread (call 0))

abbrev written : ThreadState
written = stored outer_called (set_register outer_called outer 2 42)

abbrev inner_called : ThreadState
inner_called = after written (push_frame written (call 4))

-- The default sizes.
defaults :
    let t = thread_of (new_thread 1 0x1000 0x2000 0 0) in
    (length t.stack ≡ 256) × (length t.frames ≡ 64)
unfolding program
defaults = (refl, refl)

calls : Reach thread inner_called
unfolding program
calls =
    later
      (later (later here (pushes (call 0) outer (omega arith) (omega arith) refl))
        (registers outer 2 42 refl))
      (pushes (call 4) inner (omega arith) (omega arith) refl)

new_thread-Reach-IsStacked_example : (depth : ℕ) × IsStacked inner_called depth
unfolding program
new_thread-Reach-IsStacked_example =
    new_thread-Reach-IsStacked 1 0x1000 0x2000 12 3 thread inner_called refl thread-IsThread calls

previous_frame-pop_frame_example :
    previous_frame inner_called
    ≡ ok (current_frame_header (after inner_called (pop_frame inner_called)))
unfolding program
previous_frame-pop_frame_example =
    previous_frame-pop_frame 1 0x1000 0x2000 12 3 thread inner_called
      (after inner_called (pop_frame inner_called)) inner refl thread-IsThread calls refl
