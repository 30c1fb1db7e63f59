-- ===== src/State/Tests.antt =====
-- Runs of a thread's stack, and instances of its laws.
use vex_lua.Base.{ℕ, ◌<◌, ◌≡◌, ◌≢◌, refl, [], ◌∷◌, replicate, get_or, some, Result, ok, err, arith}
use vex_lua.Value.Header.{has, with_bits}
use vex_lua.State.Frame.{
  CallFrameHeader, FrameError, blank_frame, validate_frame, register_address, spill_address,
}
use vex_lua.State.Thread.{
  ThreadState, FrameSpec, slot_index, slot_address, value_at_address, set_value_at_address,
  frame_index, frame_address, current_frame_index, next_register_base, framed, with_frame,
  push_frame, pop_frame, register, set_register, spill, set_spill,
}
use vex_lua.State.Window.{IsThread, IsWindow, register-set_register}
use vex_lua.State.Roots.{Roots, ref_count, retain_ref, release_ref, release_ref-retain_ref}
use vex_lua.State.Stack.{IsPopped, pop_frame-push_frame, push_frame-IsWindow}

program : Unit {0}
unfolding has with_bits validate_frame register_address spill_address slot_index slot_address
    value_at_address set_value_at_address frame_index frame_address current_frame_index
    next_register_base framed with_frame push_frame pop_frame register set_register spill set_spill
program = tt

abbrev thread : ThreadState
thread = record {
  id = 1;
  stack_base = 0x1000;
  frame_base = 0x2000;
  stack = replicate 10 0;
  frames = replicate 3 blank_frame;
  current_frame = 0;
  open_upvalue_head = 0;
}

abbrev call : ℕ → FrameSpec
call base = record {
  closure = 7;
  proto = 8;
  register_base = base;
  const_base = 0;
  vararg_base = 0;
  result_base = 0;
  saved_bc_off = 0;
  flags = 0;
  n_results = 0;
  vararg_count = 0;
  register_count = 3;
  spill_count = 1;
  top = 3;
  result_cap = 0;
}

abbrev fst_of : Result FrameError (ThreadState × CallFrameHeader) → ThreadState
fst_of (ok (t, f)) = t
fst_of (err e) = thread

abbrev pushed : Result FrameError (ThreadState × CallFrameHeader)
pushed = push_frame thread (call 0)

abbrev one_frame : ThreadState
one_frame = fst_of pushed

abbrev two_frames : ThreadState
two_frames = fst_of (push_frame one_frame (call 4))

nested : (next_register_base one_frame ≡ ok 4) × (next_register_base two_frames ≡ ok 8)
unfolding program
nested = (refl, refl)

abbrev second : CallFrameHeader
second = framed (call 4) 0x1020 0x2000

thread-IsThread : IsThread thread
thread-IsThread = record {
  stack_inside = omega arith;
  few_slots = omega arith;
  frames_inside = omega arith;
  some_base = omega arith;
}

first_call :
    IsThread one_frame
    × IsWindow one_frame (framed (call 0) 0x1000 0) 0
    × ((index : ℕ) × (current_frame_index one_frame ≡ ok (some index))
        × (get_or one_frame.frames index blank_frame ≡ framed (call 0) 0x1000 0))
unfolding program
first_call =
    push_frame-IsWindow thread one_frame (call 0) (framed (call 0) 0x1000 0) thread-IsThread
      (omega arith) (omega arith) refl

pop_frame-push_frame_example :
    (t : ThreadState) × (pop_frame two_frames ≡ ok (t, second))
    × ((index : ℕ) × IsPopped one_frame t index)
unfolding program
pop_frame-push_frame_example =
    pop_frame-push_frame one_frame two_frames (call 4) second first_call.0 refl

register-set_register_example :
    let frame = framed (call 0) 0x1000 0 in
    (t' : ThreadState) × (set_register one_frame frame 1 42 ≡ ok t')
    × (register t' frame 1 ≡ ok 42)
    × ((j : ℕ) → j < 3 → j ≢ 1 → register t' frame j ≡ register one_frame frame j)
    × ((j : ℕ) → j < 1 → spill t' frame j ≡ spill one_frame frame j)
unfolding program
register-set_register_example =
    register-set_register one_frame (framed (call 0) 0x1000 0) 0 1 42 first_call.0 first_call.1
      (omega arith)

release_ref-retain_ref_example :
    (ref_count (retain_ref ((5, 1) ∷ []) 5).0 5 ≡ 2)
    × ((other : ℕ)
        → other ≢ 5
        → ref_count (retain_ref ((5, 1) ∷ []) 5).0 other ≡ ref_count ((5, 1) ∷ []) other)
    × ((t'' : Roots) × (release_ref (retain_ref ((5, 1) ∷ []) 5).0 5 ≡ ok t'')
        × ((other : ℕ) → ref_count t'' other ≡ ref_count ((5, 1) ∷ []) other))
unfolding ref_count retain_ref release_ref
release_ref-retain_ref_example =
    release_ref-retain_ref ((5, 1) ∷ []) 5 (λ e. omega (arith, e)) (omega arith)
