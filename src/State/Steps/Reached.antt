-- ===== src/State/Steps/Reached.antt =====
-- What holds of a thread after any calls.
use vex_lua.Base.{
  ℕ, zero, suc, ◌≡◌, refl, ap, subst, ◌∙◌, sym, false, get_or-set_ne, none, some, ok, ◌==◌, arith,
}
use vex_lua.State.Frame.{CallFrameHeader, blank_frame}
use vex_lua.State.Thread.{
  ThreadState, current_frame_index, current_frame_header, previous_frame, frame_at_address,
  frame_index, popped, pop_frame,
}
use vex_lua.State.Window.{IsThread}
use vex_lua.State.Stack.{frame_index-address}
use vex_lua.State.Steps.{
  Step, Reach, pushes, pops, stores, registers, spills, heads, flags, tops, capacities, here, later,
  header_at, new_thread,
}
use vex_lua.State.Steps.Stacked.{
  IsStacked, current_frame_index-none, current_frame_index-some, below_address-suc,
}
use vex_lua.State.Steps.Kept.{
  new_thread-IsStacked, same_frames-IsStacked, set_value_at_address-IsStacked,
  set_register-IsStacked, set_spill-IsStacked, with_header-IsStacked, set_flag-IsSameWindow,
  set_top-IsSameWindow, set_result_capacity-IsSameWindow,
}
use vex_lua.State.Steps.Frames.{popped-IsStacked, pop_frame-parts, push_frame-IsStacked}

pop_frame-IsStacked :
    (t t' : ThreadState) (frame : CallFrameHeader) (depth : ℕ)
    → pop_frame t ≡ ok (t', frame)
    → IsStacked t depth
    → (index : ℕ) × IsStacked t' index
pop_frame-IsStacked t t' frame depth eq v =
    let (index, deep, same, same') = pop_frame-parts t t' frame depth eq v in
    (
      index,
      subst (λ u. IsStacked u index) same (popped-IsStacked t index (subst (IsStacked t) deep v)),
    )

Step-IsStacked :
    {t t' : ThreadState} (depth : ℕ)
    → Step t t'
    → IsStacked t depth
    → (depth' : ℕ) × IsStacked t' depth'
Step-IsStacked {t} {t'} depth (pushes spec frame few few' eq) v =
    (suc depth, push_frame-IsStacked t t' spec frame depth few few' eq v)
Step-IsStacked {t} {t'} depth (pops frame eq) v = pop_frame-IsStacked t t' frame depth eq v
Step-IsStacked {t} {t'} depth (stores address value eq) v =
    (depth, set_value_at_address-IsStacked t t' address value depth eq v)
Step-IsStacked {t} {t'} depth (registers frame i value eq) v =
    (depth, set_register-IsStacked t t' frame i value depth eq v)
Step-IsStacked {t} {t'} depth (spills frame i value eq) v =
    (depth, set_spill-IsStacked t t' frame i value depth eq v)
Step-IsStacked {t} {t'} depth (heads ref) v =
    (depth, same_frames-IsStacked t t' depth refl refl refl refl refl v)
Step-IsStacked {t} {t'} depth (flags index flag enabled) v =
    (depth, with_header-IsStacked t index depth _ (set_flag-IsSameWindow _ flag enabled) v)
Step-IsStacked {t} {t'} depth (tops index top {frame} eq) v =
    (depth, with_header-IsStacked t index depth frame (set_top-IsSameWindow _ frame top eq) v)
Step-IsStacked {t} {t'} depth (capacities index capacity {frame} eq) v = (
  depth,
  with_header-IsStacked t index depth frame (set_result_capacity-IsSameWindow _ frame capacity eq)
      v,
)

Reach-IsStacked :
    {t t' : ThreadState} (depth : ℕ)
    → Reach t t'
    → IsStacked t depth
    → (depth' : ℕ) × IsStacked t' depth'
Reach-IsStacked depth here v = (depth, v)
Reach-IsStacked depth (later r s) v =
    let (depth', v') = Reach-IsStacked depth r v in Step-IsStacked depth' s v'

-- Whatever calls are made of a thread that `NewThread` has made, with arenas inside the address
-- space: as many frames are in use as the current frame's index says, each of them has its slots in
-- the stack, and each is linked to the frame below it.
pub new_thread-Reach-IsStacked :
    (id stack_base frame_base stack_slots frame_capacity : ℕ) (t t' : ThreadState)
    → new_thread id stack_base frame_base stack_slots frame_capacity ≡ ok t
    → IsThread t
    → Reach t t'
    → (depth : ℕ) × IsStacked t' depth
new_thread-Reach-IsStacked id stack_base frame_base stack_slots frame_capacity t t' eq v r =
    Reach-IsStacked 0 r
      (new_thread-IsStacked id stack_base frame_base stack_slots frame_capacity t eq v)

current_frame_header-some :
    (t : ThreadState) (index : ℕ)
    → current_frame_index t ≡ ok (some index)
    → current_frame_header t ≡ some (header_at t index)
unfolding current_frame_header
current_frame_header-some t index eq = rw (current_frame_header, eq) refl

current_frame_header-none :
    (t : ThreadState) → current_frame_index t ≡ ok none → current_frame_header t ≡ none
unfolding current_frame_header
current_frame_header-none t eq = rw (current_frame_header, eq) refl

previous_frame-none :
    (t : ThreadState) (frame : CallFrameHeader)
    → current_frame_header t ≡ some frame
    → frame.prev_frame ≡ 0
    → previous_frame t ≡ ok none
unfolding previous_frame
previous_frame-none t frame eq linked = rw (previous_frame, eq, linked) refl

previous_frame-some :
    (t : ThreadState) (frame : CallFrameHeader) (index : ℕ)
    → current_frame_header t ≡ some frame
    → (frame.prev_frame == 0) ≡ false
    → frame_index t frame.prev_frame ≡ ok index
    → previous_frame t ≡ ok (some (header_at t index))
unfolding previous_frame frame_at_address
previous_frame-some t frame index eq linked found =
    rw (previous_frame, eq, linked, frame_at_address, found) refl

-- The header below the current one, and the one that is current after a pop.
previous-popped :
    (t : ThreadState) (index : ℕ)
    → IsStacked t (suc index)
    → previous_frame t ≡ ok (current_frame_header (popped t index))
previous-popped t zero v =
    let at = current_frame_index-some t zero v.is_thread (omega (arith, v.fits)) v.current in
    previous_frame-none t (header_at t zero) (current_frame_header-some t zero at)
      (v.links zero (omega arith))
    ∙ ap ok (sym (current_frame_header-none _ (current_frame_index-none (popped t zero) refl)))
previous-popped t (suc index) v =
    let at = current_frame_index-some t (suc index) v.is_thread (omega (arith, v.fits)) v.current in
    let linked =
      v.links (suc index) (omega arith)
      ∙ below_address-suc t index v.is_thread (omega (arith, v.fits)) in
    let some_frame : ((header_at t (suc index)).prev_frame == 0) ≡ false =
      ground (arith, linked, v.is_thread.some_base) in
    let found = ap (frame_index t) linked ∙ frame_index-address t index (omega (arith, v.fits)) in
    let v' = popped-IsStacked t (suc index) v in
    let at' =
      current_frame_index-some (popped t (suc index)) index v'.is_thread (omega (arith, v'.fits))
        v'.current in
    previous_frame-some t (header_at t (suc index)) index
      (current_frame_header-some t (suc index) at) some_frame found
    ∙ ap (λ f. ok (some f))
        (sym (
          get_or-set_ne t.frames (suc index) index blank_frame blank_frame
            (λ same. omega (arith, same))))
    ∙ ap ok (sym (current_frame_header-some (popped t (suc index)) index at'))

-- Whatever calls are made of a new thread, `PreviousFrame`, which follows the link of the current
-- frame, gives the frame, or none, that is current once `PopFrame`, which counts down, has succeeded.
pub previous_frame-pop_frame :
    (id stack_base frame_base stack_slots frame_capacity : ℕ) (t t' t'' : ThreadState)
    (frame : CallFrameHeader)
    → new_thread id stack_base frame_base stack_slots frame_capacity ≡ ok t
    → IsThread t
    → Reach t t'
    → pop_frame t' ≡ ok (t'', frame)
    → previous_frame t' ≡ ok (current_frame_header t'')
previous_frame-pop_frame id stack_base frame_base stack_slots frame_capacity t t' t'' frame eq v r
      popped_eq =
    let (depth, w) =
      new_thread-Reach-IsStacked id stack_base frame_base stack_slots frame_capacity t t' eq v r in
    let (index, deep, same, same') = pop_frame-parts t' t'' frame depth popped_eq w in
    subst (λ u. previous_frame t' ≡ ok (current_frame_header u)) same
      (previous-popped t' index (subst (IsStacked t') deep w))
