-- ===== src/State/Steps/Kept.antt =====
-- Each call leaves the frames of a thread stacked.
use vex_lua.Base.{
  ℕ, ◌<◌, ◌≡◌, refl, ap, subst, ◌∙◌, sym, Bool, length, get_or, length-set, get_or-set_ne,
  get_or-set_self, ok, err, >>=-eq-ok, ◌==◌, arith, Bool-cases, ==_iff, inl, inr, guard, leb, ◌||◌,
  not, ok_injective,
}
use vex_lua.State.Frame.{
  CallFrameHeader, blank_frame, set_flag, set_top, set_result_capacity, slot_count, top_range,
  no_result_base, register_address, spill_address,
}
use vex_lua.State.Thread.{ThreadState, slot_index, set_value_at_address, set_register, set_spill}
use vex_lua.State.Window.{IsThread, with_slot}
use vex_lua.State.Steps.{header_at, with_header, new_thread}
use vex_lua.State.Steps.Stacked.{IsStacked, IsSameWindow, IsSameWindow-refl, same_space-IsStacked}

pub new_thread-IsStacked :
    (id stack_base frame_base stack_slots frame_capacity : ℕ) (t : ThreadState)
    → new_thread id stack_base frame_base stack_slots frame_capacity ≡ ok t
    → IsThread t
    → IsStacked t 0
unfolding new_thread
new_thread-IsStacked id stack_base frame_base stack_slots frame_capacity t eq v = record {
  is_thread = v;
  fits = omega arith;
  current = sym (ap (λ r. elim r [ ok u ↦ u.current_frame | err e ↦ 0 ]) eq);
  windows = λ j inside. absurd (omega (arith, inside));
  links = λ j inside. absurd (omega (arith, inside));
}

-- A call that changes no header.
pub same_frames-IsStacked :
    (t t' : ThreadState) (depth : ℕ)
    → t'.stack_base ≡ t.stack_base
    → t'.frame_base ≡ t.frame_base
    → length t'.stack ≡ length t.stack
    → t'.frames ≡ t.frames
    → t'.current_frame ≡ t.current_frame
    → IsStacked t depth
    → IsStacked t' depth
same_frames-IsStacked t t' depth base base' slots frames current v =
    same_space-IsStacked t t' depth depth
      (record {
        same_stack_base = base;
        same_frame_base = base';
        same_slots = slots;
        same_capacity = ap length frames;
      })
      (omega arith) (current ∙ v.current)
      (λ j inside.
        subst (λ l. IsSameWindow (header_at t j) (get_or l j blank_frame)) (sym frames)
          (IsSameWindow-refl (header_at t j)))
      v

pub set_value_at_address-IsStacked :
    (t t' : ThreadState) (address value depth : ℕ)
    → set_value_at_address t address value ≡ ok t'
    → IsStacked t depth
    → IsStacked t' depth
unfolding set_value_at_address
set_value_at_address-IsStacked t t' address value depth eq v =
    let (index, found, last) = >>=-eq-ok (slot_index t address) _ eq in
    subst (λ u. IsStacked u depth) (ok_injective last)
      (same_frames-IsStacked t (with_slot t index value) depth refl refl
        (length-set t.stack index value) refl refl v)

pub set_register-IsStacked :
    (t t' : ThreadState) (frame : CallFrameHeader) (i value depth : ℕ)
    → set_register t frame i value ≡ ok t'
    → IsStacked t depth
    → IsStacked t' depth
unfolding set_register
set_register-IsStacked t t' frame i value depth eq v =
    let (address, found, last) = >>=-eq-ok (register_address frame i) _ eq in
    set_value_at_address-IsStacked t t' address value depth last v

pub set_spill-IsStacked :
    (t t' : ThreadState) (frame : CallFrameHeader) (i value depth : ℕ)
    → set_spill t frame i value ≡ ok t'
    → IsStacked t depth
    → IsStacked t' depth
unfolding set_spill
set_spill-IsStacked t t' frame i value depth eq v =
    let (address, found, last) = >>=-eq-ok (spill_address frame i) _ eq in
    set_value_at_address-IsStacked t t' address value depth last v

set_at-IsSameWindow :
    (t : ThreadState) (index j : ℕ) (frame : CallFrameHeader)
    → j < length t.frames
    → IsSameWindow (header_at t index) frame
    → IsSameWindow (header_at t j) (header_at (with_header t index frame) j)
set_at-IsSameWindow t index j frame inside same = elim (Bool-cases (index == j)) [
  | inl eq ↦
      (let here_ = (==_iff index j).0 eq in
        subst (λ i. IsSameWindow (header_at t i) (header_at (with_header t index frame) i)) here_
          (subst (IsSameWindow (header_at t index))
            (sym (get_or-set_self t.frames index frame blank_frame (omega (arith, here_, inside))))
            same))
  | inr ne ↦
      subst (IsSameWindow (header_at t j))
        (sym (get_or-set_ne t.frames index j frame blank_frame (λ e. ground (arith, e, ne))))
        (IsSameWindow-refl (header_at t j))
]

pub with_header-IsStacked :
    (t : ThreadState) (index depth : ℕ) (frame : CallFrameHeader)
    → IsSameWindow (header_at t index) frame
    → IsStacked t depth
    → IsStacked (with_header t index frame) depth
with_header-IsStacked t index depth frame same v =
    same_space-IsStacked t (with_header t index frame) depth depth
      (record {
        same_stack_base = refl;
        same_frame_base = refl;
        same_slots = refl;
        same_capacity = length-set t.frames index frame;
      })
      (omega arith) v.current
      (λ j inside. set_at-IsSameWindow t index j frame (omega (arith, inside, v.fits)) same) v

pub set_flag-IsSameWindow :
    (frame : CallFrameHeader) (flag : ℕ) (enabled : Bool)
    → IsSameWindow frame (set_flag frame flag enabled)
unfolding set_flag
set_flag-IsSameWindow frame flag enabled = record {
  same_prev = refl;
  same_regs = refl;
  same_registers = refl;
  same_spills = refl;
}

pub set_top-IsSameWindow :
    (frame frame' : CallFrameHeader) (top : ℕ)
    → set_top frame top ≡ ok frame'
    → IsSameWindow frame frame'
unfolding set_top
set_top-IsSameWindow frame frame' top eq =
    let (u, fits, last) = >>=-eq-ok (guard (leb top (slot_count frame)) (top_range top)) _ eq in
    subst (IsSameWindow frame) (ok_injective last)
      (record { same_prev = refl; same_regs = refl; same_registers = refl; same_spills = refl })

pub set_result_capacity-IsSameWindow :
    (frame frame' : CallFrameHeader) (capacity : ℕ)
    → set_result_capacity frame capacity ≡ ok frame'
    → IsSameWindow frame frame'
unfolding set_result_capacity
set_result_capacity-IsSameWindow frame frame' capacity eq =
    let (u, fits, last) =
      >>=-eq-ok (guard (capacity == 0 || not (frame.result_base == 0)) no_result_base) _ eq in
    subst (IsSameWindow frame) (ok_injective last)
      (record { same_prev = refl; same_regs = refl; same_registers = refl; same_spills = refl })
