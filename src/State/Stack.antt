-- ===== src/State/Stack.antt =====
-- A frame that is pushed is popped again.
use vex_lua.Base.{
  Bool-cases, ==_iff, inl, inr, ℕ, ◌+◌, ◌*◌, ◌^◌, ◌%◌, ◌≤◌, ◌<◌, ◌≡◌, ◌≢◌, refl, ap, subst, ◌∙◌,
  sym, false, length, get_or, set, length-set, get_or-set_self, get_or-set_ne, ltb, leb, ◌==◌, ok,
  >>=-eq-ok, guard, ◌>>=◌, arith, Option, none, some, ok_injective, ok_pair,
}
use vex_lua.State.Frame.{
  CallFrameHeader, FrameError, blank_frame, validate_frame, stack_exhausted, frames_exhausted,
}
use vex_lua.State.Thread.{
  ThreadState, FrameSpec, slot_address, frame_index, push_frame, pop_frame, framed, with_frame,
  current_frame_index, frame_address, next_index, previous_address, below_address, popped,
}
use vex_lua.State.Window.{IsThread, IsWindow}

frame_index-parts :
    (t : ThreadState) (address index : ℕ)
    → frame_index t address ≡ ok index
    → (address ≡ t.frame_base + index * 0x60) × (index < length t.frames)
unfolding frame_index
frame_index-parts t address index eq = ground (arith, eq)

pub frame_index-address :
    (t : ThreadState) (index : ℕ)
    → index < length t.frames
    → frame_index t (t.frame_base + index * 0x60) ≡ ok index
unfolding frame_index
frame_index-address t index inside = ground (arith, inside)

below_next :
    (t : ThreadState) (index : ℕ)
    → IsThread t
    → index < length t.frames
    → below_address t (index + 1) ≡ t.frame_base + index * 0x60
below_next t index v inside = ground (arith, v.frames_inside, inside)

-- The current frame's address is that of the frame below the next one.
current_below :
    (t : ThreadState) (current : Option ℕ)
    → IsThread t
    → current_frame_index t ≡ ok current
    → below_address t (next_index current) ≡ t.current_frame
unfolding current_frame_index
current_below t current v eq = elim (Bool-cases (t.current_frame == 0)) [
  | inl nil ↦
      subst (λ c. below_address t (next_index c) ≡ t.current_frame)
        (ok_injective (rw (current_frame_index, nil) at eq))
        (sym ((==_iff t.current_frame 0).0 nil))
  | inr some_frame ↦
      (let (index, found, last) =
          >>=-eq-ok (frame_index t t.current_frame) _
            (rw (current_frame_index, some_frame) at eq) in
        let (at, inside) = frame_index-parts t t.current_frame index found in
        subst (λ c. below_address t (next_index c) ≡ t.current_frame) (ok_injective last)
          (below_next t index v inside ∙ sym at))
]

-- The parts of a push.
pub record IsPushed (t t' : ThreadState) (spec : FrameSpec) (frame : CallFrameHeader) (index : ℕ)
    : Type 0 where
  pub made : with_frame t index frame ≡ t'
  pub below : below_address t index ≡ t.current_frame
  pub inside : index < length t.frames
  pub links : frame.prev_frame ≡ below_address t index
  pub regs_at : slot_address t spec.register_base ≡ ok frame.regs_base
  pub enough :
      (spec.register_base + spec.register_count + spec.spill_count) % 2 ^ 32 ≤ length t.stack
  pub registers : frame.register_count ≡ spec.register_count
  pub spills : frame.spill_count ≡ spec.spill_count

framed_regs : (spec : FrameSpec) (regs previous : ℕ) → regs ≡ (framed spec regs previous).regs_base
unfolding framed
framed_regs spec regs previous = refl

framed_previous :
    (spec : FrameSpec) (regs previous : ℕ) → (framed spec regs previous).prev_frame ≡ previous
unfolding framed
framed_previous spec regs previous = refl

-- The address that a new frame is linked to is that of the frame below it.
previous-below :
    (t : ThreadState) (current : Option ℕ) (previous : ℕ)
    → previous_address t current ≡ ok previous
    → below_address t (next_index current) ≡ previous
unfolding frame_address
previous-below t none previous eq = ground (arith, eq)
previous-below t (some index) previous eq = ground (arith, eq)

framed_counts :
    (spec : FrameSpec) (regs previous : ℕ)
    → ((framed spec regs previous).register_count ≡ spec.register_count)
      × ((framed spec regs previous).spill_count ≡ spec.spill_count)
unfolding framed
framed_counts spec regs previous = (refl, refl)

guard_lt : (a b : ℕ) (e : FrameError) {u : Unit {0}} → guard (ltb a b) e ≡ ok u → a < b
guard_lt a b e eq = ground (arith, eq)

guard_le : (a b : ℕ) (e : FrameError) {u : Unit {0}} → guard (leb a b) e ≡ ok u → a ≤ b
guard_le a b e eq = ground (arith, eq)

pub push_frame-parts :
    (t t' : ThreadState) (spec : FrameSpec) (frame : CallFrameHeader)
    → IsThread t
    → push_frame t spec ≡ ok (t', frame)
    → (index : ℕ) × IsPushed t t' spec frame index
unfolding push_frame
push_frame-parts t t' spec frame v eq =
    let (current, found, r₁) = >>=-eq-ok (current_frame_index t) _ eq in
    let (u₁, room, r₂) =
      >>=-eq-ok (guard (ltb (next_index current) (length t.frames)) frames_exhausted) _ r₁ in
    let (u₂, enough, r₃) =
      >>=-eq-ok
        (guard
          (leb ((spec.register_base + spec.register_count + spec.spill_count) % 2 ^ 32)
            (length t.stack))
          stack_exhausted)
        _ r₂ in
    let (regs, at, r₄) = >>=-eq-ok (slot_address t spec.register_base) _ r₃ in
    let (previous, linked, r₅) = >>=-eq-ok (previous_address t current) _ r₄ in
    let (u₃, valid, last) = >>=-eq-ok (validate_frame (framed spec regs previous)) _ r₅ in
    let (same, same') = ok_pair last in
    (
      next_index current,
      record {
        made = subst (λ f. with_frame t (next_index current) f ≡ t') same' same;
        below = current_below t current v found;
        inside = guard_lt _ _ _ room;
        links =
            sym (ap (λ f. f.prev_frame) same')
            ∙ framed_previous spec regs previous
            ∙ sym (previous-below t current previous linked);
        regs_at = at ∙ ap ok (framed_regs spec regs previous ∙ ap (λ f. f.regs_base) same');
        enough = guard_le _ _ _ enough;
        registers = sym (ap (λ f. f.register_count) same') ∙ (framed_counts spec regs previous).0;
        spills = sym (ap (λ f. f.spill_count) same') ∙ (framed_counts spec regs previous).1;
      },
    )

-- What a pop gives back of the thread before the push.
pub record IsPopped (t t'' : ThreadState) (index : ℕ) : Type 0 where
  pub same_current : t''.current_frame ≡ t.current_frame
  pub same_stack : t''.stack ≡ t.stack
  pub same_head : t''.open_upvalue_head ≡ t.open_upvalue_head
  pub same_frames :
      (j : ℕ) → j ≢ index → get_or t''.frames j blank_frame ≡ get_or t.frames j blank_frame

pub current-with_frame :
    (t : ThreadState) (index : ℕ) (frame : CallFrameHeader)
    → IsThread t
    → index < length t.frames
    → current_frame_index (with_frame t index frame) ≡ ok (some index)
unfolding with_frame current_frame_index
current-with_frame t index frame v inside =
    let t' = with_frame t index frame in
    let address : (t.frame_base + index * 0x60) % 2 ^ 64 ≡ t.frame_base + index * 0x60 =
      omega (arith, v.frames_inside, inside) in
    let some_frame : ((t.frame_base + index * 0x60) == 0) ≡ false = ground (arith, v.some_base) in
    let found =
      frame_index-address t' index (omega (arith, inside, length-set t.frames index frame)) in
    rw (current_frame_index, address, some_frame) (ap (λ r. r >>= λ i. ok (some i)) found)

pub pop_frame-current :
    (t : ThreadState) (index : ℕ)
    → current_frame_index t ≡ ok (some index)
    → pop_frame t ≡ ok (popped t index, get_or t.frames index blank_frame)
unfolding pop_frame
pop_frame-current t index eq = rw (pop_frame, eq) refl

popped-IsPopped :
    (t : ThreadState) (index : ℕ) (frame : CallFrameHeader)
    → below_address t index ≡ t.current_frame
    → IsPopped t (popped (with_frame t index frame) index) index
unfolding with_frame
popped-IsPopped t index frame below = record {
  same_current = below;
  same_stack = refl;
  same_head = refl;
  same_frames = λ j ne.
      get_or-set_ne (set t.frames index frame) index j blank_frame blank_frame
        (λ same. ne (sym same))
      ∙ get_or-set_ne t.frames index j frame blank_frame (λ same. ne (sym same));
}

pub top-with_frame :
    (t : ThreadState) (index : ℕ) (frame : CallFrameHeader)
    → index < length t.frames
    → get_or (with_frame t index frame).frames index blank_frame ≡ frame
unfolding with_frame
top-with_frame t index frame inside = get_or-set_self t.frames index frame blank_frame inside

-- A frame that `PushFrame` has pushed is the one that `PopFrame` returns, and the thread is then as
-- it was before: its current frame, its stack, its open upvalues and all other frames.
pub pop_frame-push_frame :
    (t t' : ThreadState) (spec : FrameSpec) (frame : CallFrameHeader)
    → IsThread t
    → push_frame t spec ≡ ok (t', frame)
    → (t'' : ThreadState) × (pop_frame t' ≡ ok (t'', frame)) × ((index : ℕ) × IsPopped t t'' index)
pop_frame-push_frame t t' spec frame v eq =
    let (index, p) = push_frame-parts t t' spec frame v eq in
    let pushed = with_frame t index frame in
    (
      popped pushed index,
      subst (λ x. pop_frame x ≡ ok (popped pushed index, frame)) p.made
          (pop_frame-current pushed index (current-with_frame t index frame v p.inside)
            ∙ ap (λ f. ok (popped pushed index, f)) (top-with_frame t index frame p.inside)),
      (index, popped-IsPopped t index frame p.below),
    )

pub with_frame-IsThread :
    (t : ThreadState) (index : ℕ) (frame : CallFrameHeader)
    → IsThread t
    → IsThread (with_frame t index frame)
unfolding with_frame
with_frame-IsThread t index frame v = record {
  stack_inside = v.stack_inside;
  few_slots = v.few_slots;
  frames_inside = omega (arith, length-set t.frames index frame, v.frames_inside);
  some_base = v.some_base;
}

pub with_frame-IsWindow :
    (t : ThreadState) (index : ℕ) (frame : CallFrameHeader) (base : ℕ)
    → frame.regs_base ≡ t.stack_base + base * 8
    → base + frame.register_count + frame.spill_count ≤ length t.stack
    → IsWindow (with_frame t index frame) frame base
unfolding with_frame
with_frame-IsWindow t index frame base at inside = record { at_base = at; inside = inside }

pub window_of :
    (t : ThreadState) (spec : FrameSpec) (regs : ℕ)
    → IsThread t
    → slot_address t spec.register_base ≡ ok regs
    → (spec.register_base + spec.register_count + spec.spill_count) % 2 ^ 32 ≤ length t.stack
    → spec.register_count < 2 ^ 16
    → spec.spill_count < 2 ^ 16
    → (regs ≡ t.stack_base + spec.register_base * 8)
      × (spec.register_base + spec.register_count + spec.spill_count ≤ length t.stack)
unfolding slot_address
window_of t spec regs v at enough few few' =
    ground (arith, at, enough, few, few', v.stack_inside, v.few_slots)

-- The slots of a pushed frame, whose counts are 16-bit words, are slots of the stack from the
-- register base of its specification on, and the frame is the current one.
pub push_frame-IsWindow :
    (t t' : ThreadState) (spec : FrameSpec) (frame : CallFrameHeader)
    → IsThread t
    → spec.register_count < 2 ^ 16
    → spec.spill_count < 2 ^ 16
    → push_frame t spec ≡ ok (t', frame)
    → IsThread t'
      × IsWindow t' frame spec.register_base
      × ((index : ℕ) × (current_frame_index t' ≡ ok (some index))
          × (get_or t'.frames index blank_frame ≡ frame))
push_frame-IsWindow t t' spec frame v few few' eq =
    let (index, p) = push_frame-parts t t' spec frame v eq in
    let (at, inside) = window_of t spec frame.regs_base v p.regs_at p.enough few few' in
    subst
      (λ x.
        IsThread x
        × IsWindow x frame spec.register_base
        × ((i : ℕ) × (current_frame_index x ≡ ok (some i))
            × (get_or x.frames i blank_frame ≡ frame)))
      p.made
      (
        with_frame-IsThread t index frame v,
        with_frame-IsWindow t index frame spec.register_base at
            (omega (arith, inside, p.registers, p.spills)),
        (index, current-with_frame t index frame v p.inside, top-with_frame t index frame p.inside),
      )
