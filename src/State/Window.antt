-- ===== src/State/Window.antt =====
-- A frame's registers and spills are slots of the stack, each with a value of its own.
use vex_lua.Base.{
  ℕ, ◌+◌, ◌*◌, ◌^◌, ◌≤◌, ◌<◌, ◌≡◌, ◌≢◌, ap, ◌∙◌, sym, length, get_or, set, length-set,
  get_or-set_self, get_or-set_ne, ok, ◌>>=◌, arith,
}
use vex_lua.State.Frame.{CallFrameHeader, register_address, spill_address}
use vex_lua.State.Thread.{
  ThreadState, slot_index, value_at_address, set_value_at_address, register, set_register, spill,
}

-- The arenas lie inside the 64-bit address space, the stack has few slots beside 2 ^ 32, and no frame
-- has the address 0.
pub record IsThread (t : ThreadState) : Type 0 where
  pub stack_inside : t.stack_base + length t.stack * 8 ≤ 2 ^ 64
  pub few_slots : length t.stack ≤ 2 ^ 31
  pub frames_inside : t.frame_base + length t.frames * 0x60 ≤ 2 ^ 64
  pub some_base : 0 < t.frame_base

-- The frame's slots are those of the stack from an index on.
pub record IsWindow (t : ThreadState) (frame : CallFrameHeader) (base : ℕ) : Type 0 where
  pub at_base : frame.regs_base ≡ t.stack_base + base * 8
  pub inside : base + frame.register_count + frame.spill_count ≤ length t.stack

-- Slot `index` of the stack, by its address.
slot_index-address :
    (t : ThreadState) (index : ℕ)
    → index < length t.stack
    → slot_index t (t.stack_base + index * 8) ≡ ok index
unfolding slot_index
slot_index-address t index inside = ground (arith, inside)

register_address-slot :
    (t : ThreadState) (frame : CallFrameHeader) (base i : ℕ)
    → IsThread t
    → IsWindow t frame base
    → i < frame.register_count
    → register_address frame i ≡ ok (t.stack_base + (base + i) * 8)
unfolding register_address
register_address-slot t frame base i v w below =
    ground (arith, below, w.at_base, w.inside, v.stack_inside)

spill_address-slot :
    (t : ThreadState) (frame : CallFrameHeader) (base i : ℕ)
    → IsThread t
    → IsWindow t frame base
    → i < frame.spill_count
    → spill_address frame i ≡ ok (t.stack_base + (base + frame.register_count + i) * 8)
unfolding spill_address
spill_address-slot t frame base i v w below =
    ground (arith, below, w.at_base, w.inside, v.stack_inside)

value_at_slot :
    (t : ThreadState) (index : ℕ)
    → index < length t.stack
    → value_at_address t (t.stack_base + index * 8) ≡ ok (get_or t.stack index 0)
unfolding value_at_address
value_at_slot t index inside =
    ap (λ r. r >>= λ i. ok (get_or t.stack i 0)) (slot_index-address t index inside)

-- The thread with another value in a slot.
abbrev pub with_slot : ThreadState → ℕ → ℕ → ThreadState
with_slot t index value = record t { stack = set t.stack index value }

set_value_at_slot :
    (t : ThreadState) (index value : ℕ)
    → index < length t.stack
    → set_value_at_address t (t.stack_base + index * 8) value ≡ ok (with_slot t index value)
unfolding set_value_at_address
set_value_at_slot t index value inside =
    ap (λ r. r >>= λ i. ok (with_slot t i value)) (slot_index-address t index inside)

pub register-slot :
    (t : ThreadState) (frame : CallFrameHeader) (base i : ℕ)
    → IsThread t
    → IsWindow t frame base
    → i < frame.register_count
    → register t frame i ≡ ok (get_or t.stack (base + i) 0)
unfolding register
register-slot t frame base i v w below =
    ap (λ r. r >>= λ a. value_at_address t a) (register_address-slot t frame base i v w below)
    ∙ value_at_slot t (base + i) (omega (arith, below, w.inside))

pub spill-slot :
    (t : ThreadState) (frame : CallFrameHeader) (base i : ℕ)
    → IsThread t
    → IsWindow t frame base
    → i < frame.spill_count
    → spill t frame i ≡ ok (get_or t.stack (base + frame.register_count + i) 0)
unfolding spill
spill-slot t frame base i v w below =
    ap (λ r. r >>= λ a. value_at_address t a) (spill_address-slot t frame base i v w below)
    ∙ value_at_slot t (base + frame.register_count + i) (omega (arith, below, w.inside))

pub with_slot-IsThread :
    (t : ThreadState) (index value : ℕ) → IsThread t → IsThread (with_slot t index value)
with_slot-IsThread t index value v = record {
  stack_inside = omega (arith, length-set t.stack index value, v.stack_inside);
  few_slots = omega (arith, length-set t.stack index value, v.few_slots);
  frames_inside = v.frames_inside;
  some_base = v.some_base;
}

with_slot-IsWindow :
    (t : ThreadState) (frame : CallFrameHeader) (base index value : ℕ)
    → IsWindow t frame base
    → IsWindow (with_slot t index value) frame base
with_slot-IsWindow t frame base index value w = record {
  at_base = w.at_base;
  inside = omega (arith, length-set t.stack index value, w.inside);
}

set_register-slot :
    (t : ThreadState) (frame : CallFrameHeader) (base i value : ℕ)
    → IsThread t
    → IsWindow t frame base
    → i < frame.register_count
    → set_register t frame i value ≡ ok (with_slot t (base + i) value)
unfolding set_register
set_register-slot t frame base i value v w below =
    ap (λ r. r >>= λ a. set_value_at_address t a value)
      (register_address-slot t frame base i v w below)
    ∙ set_value_at_slot t (base + i) value (omega (arith, below, w.inside))

-- `SetRegister` of a register of a frame whose slots lie in the stack succeeds: `Register` gives the
-- value back, and the frame's other registers, and all its spills, are as before.
pub register-set_register :
    (t : ThreadState) (frame : CallFrameHeader) (base i value : ℕ)
    → IsThread t
    → IsWindow t frame base
    → i < frame.register_count
    → (t' : ThreadState) × (set_register t frame i value ≡ ok t')
      × (register t' frame i ≡ ok value)
      × ((j : ℕ) → j < frame.register_count → j ≢ i → register t' frame j ≡ register t frame j)
      × ((j : ℕ) → j < frame.spill_count → spill t' frame j ≡ spill t frame j)
register-set_register t frame base i value v w below =
    let t' = with_slot t (base + i) value in
    let v' = with_slot-IsThread t (base + i) value v in
    let w' = with_slot-IsWindow t frame base (base + i) value w in
    (
      t',
      set_register-slot t frame base i value v w below,
      register-slot t' frame base i v' w' below
          ∙ ap ok (get_or-set_self t.stack (base + i) value 0 (omega (arith, below, w.inside))),
      λ j inside ne.
          register-slot t' frame base j v' w' inside
          ∙ ap ok
              (get_or-set_ne t.stack (base + i) (base + j) value 0 λ same. ne (omega (arith, same)))
          ∙ sym (register-slot t frame base j v w inside),
      λ j inside.
          spill-slot t' frame base j v' w' inside
          ∙ ap ok (
              get_or-set_ne t.stack (base + i) (base + frame.register_count + j) value 0
                λ same. omega (arith, same, below))
          ∙ sym (spill-slot t frame base j v w inside),
    )
