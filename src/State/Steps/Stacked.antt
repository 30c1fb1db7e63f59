-- ===== src/State/Steps/Stacked.antt =====
-- The frames in use of a thread, from the first to the current one.
use vex_lua.Base.{
  ℕ, zero, suc, ◌+◌, ◌*◌, ◌≤◌, ◌<◌, ◌≡◌, refl, ap, ◌∙◌, sym, false, length, none, some, ok, ◌>>=◌,
  ◌==◌, arith,
}
use vex_lua.State.Frame.{CallFrameHeader}
use vex_lua.State.Thread.{ThreadState, current_frame_index, below_address}
use vex_lua.State.Window.{IsThread, IsWindow}
use vex_lua.State.Stack.{frame_index-address}
use vex_lua.State.Steps.{header_at}

pub record IsStacked (t : ThreadState) (depth : ℕ) : Type 0 where
  pub is_thread : IsThread t
  pub fits : depth ≤ length t.frames
  pub current : t.current_frame ≡ below_address t depth
  pub windows : (j : ℕ) → j < depth → (base : ℕ) × IsWindow t (header_at t j) base
  pub links : (j : ℕ) → j < depth → (header_at t j).prev_frame ≡ below_address t j

-- What the frames above and below know of a header.
pub record IsSameWindow (f f' : CallFrameHeader) : Type 0 where
  pub same_prev : f'.prev_frame ≡ f.prev_frame
  pub same_regs : f'.regs_base ≡ f.regs_base
  pub same_registers : f'.register_count ≡ f.register_count
  pub same_spills : f'.spill_count ≡ f.spill_count

pub IsSameWindow-refl : (f : CallFrameHeader) → IsSameWindow f f
IsSameWindow-refl f = record {
  same_prev = refl;
  same_regs = refl;
  same_registers = refl;
  same_spills = refl;
}

-- A thread whose arenas are where another's are.
pub record IsSameSpace (t t' : ThreadState) : Type 0 where
  pub same_stack_base : t'.stack_base ≡ t.stack_base
  pub same_frame_base : t'.frame_base ≡ t.frame_base
  pub same_slots : length t'.stack ≡ length t.stack
  pub same_capacity : length t'.frames ≡ length t.frames

pub same_space-IsThread : (t t' : ThreadState) → IsSameSpace t t' → IsThread t → IsThread t'
same_space-IsThread t t' s v = record {
  stack_inside = omega (arith, s.same_stack_base, s.same_slots, v.stack_inside);
  few_slots = omega (arith, s.same_slots, v.few_slots);
  frames_inside = omega (arith, s.same_frame_base, s.same_capacity, v.frames_inside);
  some_base = omega (arith, s.same_frame_base, v.some_base);
}

pub same_space-below :
    (t t' : ThreadState) (index : ℕ)
    → IsSameSpace t t'
    → below_address t' index ≡ below_address t index
same_space-below t t' index s = rw s.same_frame_base refl

pub same_space-IsWindow :
    (t t' : ThreadState) (f f' : CallFrameHeader) (base : ℕ)
    → IsSameSpace t t'
    → IsSameWindow f f'
    → IsWindow t f base
    → IsWindow t' f' base
same_space-IsWindow t t' f f' base s same w = record {
  at_base = omega (arith, s.same_stack_base, same.same_regs, w.at_base);
  inside = omega (arith, s.same_slots, same.same_registers, same.same_spills, w.inside);
}

-- The frames of a thread are those of another whose headers tell the same, up to another depth.
pub same_space-IsStacked :
    (t t' : ThreadState) (depth depth' : ℕ)
    → IsSameSpace t t'
    → depth' ≤ depth
    → t'.current_frame ≡ below_address t depth'
    → ((j : ℕ) → j < depth' → IsSameWindow (header_at t j) (header_at t' j))
    → IsStacked t depth
    → IsStacked t' depth'
same_space-IsStacked t t' depth depth' s less current same v = record {
  is_thread = same_space-IsThread t t' s v.is_thread;
  fits = omega (arith, less, v.fits, s.same_capacity);
  current = current ∙ sym (same_space-below t t' depth' s);
  windows = λ j inside.
      let (base, w) = v.windows j (omega (arith, inside, less)) in
      (base, same_space-IsWindow t t' (header_at t j) (header_at t' j) base s (same j inside) w);
  links = λ j inside.
      (same j inside).same_prev
      ∙ v.links j (omega (arith, inside, less))
      ∙ sym (same_space-below t t' j s);
}

pub below_address-suc :
    (t : ThreadState) (index : ℕ)
    → IsThread t
    → index < length t.frames
    → below_address t (suc index) ≡ t.frame_base + index * 0x60
below_address-suc t index v inside = ground (arith, v.frames_inside, inside)

-- Frames in use at different depths have different addresses.
pub below_address-injective :
    (t : ThreadState) (i j : ℕ)
    → IsThread t
    → i ≤ length t.frames
    → j ≤ length t.frames
    → below_address t i ≡ below_address t j
    → i ≡ j
below_address-injective t zero zero v hi hj eq = refl
below_address-injective t zero (suc j) v hi hj eq =
    omega (arith, eq, below_address-suc t j v (omega (arith, hj)), v.some_base)
below_address-injective t (suc i) zero v hi hj eq =
    omega (arith, eq, below_address-suc t i v (omega (arith, hi)), v.some_base)
below_address-injective t (suc i) (suc j) v hi hj eq = omega (
  arith,
  eq,
  below_address-suc t i v (omega (arith, hi)),
  below_address-suc t j v (omega (arith, hj)),
)

pub current_frame_index-none :
    (t : ThreadState) → t.current_frame ≡ 0 → current_frame_index t ≡ ok none
unfolding current_frame_index
current_frame_index-none t eq = rw (current_frame_index, eq) refl

pub current_frame_index-some :
    (t : ThreadState) (index : ℕ)
    → IsThread t
    → index < length t.frames
    → t.current_frame ≡ below_address t (suc index)
    → current_frame_index t ≡ ok (some index)
unfolding current_frame_index
current_frame_index-some t index v inside eq =
    let at = eq ∙ below_address-suc t index v inside in
    let some_frame : ((t.frame_base + index * 0x60) == 0) ≡ false = ground (arith, v.some_base) in
    rw (current_frame_index, at, some_frame)
      (ap (λ r. r >>= λ i. ok (some i)) (frame_index-address t index inside))
