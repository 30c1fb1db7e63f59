-- ===== src/State/Steps/Frames.antt =====
-- `PushFrame` and `PopFrame` on a thread whose frames are stacked.
use vex_lua.Base.{
  ℕ, zero, suc, ◌+◌, ◌*◌, ◌^◌, ◌%◌, ◌<◌, ◌≡◌, ◌≢◌, refl, ap, subst, ◌∙◌, sym, length, get_or, set,
  length-set, get_or-set_ne, get_or-set_self, ok, ◌==◌, arith, Bool-cases, ==_iff, inl, inr,
  ok_pair,
}
use vex_lua.State.Frame.{CallFrameHeader, blank_frame}
use vex_lua.State.Thread.{
  ThreadState, FrameSpec, below_address, with_frame, popped, push_frame, pop_frame,
}
use vex_lua.State.Window.{IsWindow}
use vex_lua.State.Stack.{push_frame-parts, pop_frame-current, window_of}
use vex_lua.State.Steps.{header_at}
use vex_lua.State.Steps.Stacked.{
  IsStacked, IsSameWindow, IsSameWindow-refl, IsSameSpace, same_space-IsStacked,
  same_space-IsThread, same_space-IsWindow, same_space-below, below_address-injective,
  current_frame_index-none, current_frame_index-some,
}

-- A header at another index is kept.
other-IsSameWindow :
    (t t' : ThreadState) (index j : ℕ) (frame : CallFrameHeader)
    → t'.frames ≡ set t.frames index frame
    → index ≢ j
    → IsSameWindow (header_at t j) (header_at t' j)
other-IsSameWindow t t' index j frame frames ne =
    subst (IsSameWindow (header_at t j))
      (sym (
        ap (λ l. get_or l j blank_frame) frames
        ∙ get_or-set_ne t.frames index j frame blank_frame ne))
      (IsSameWindow-refl (header_at t j))

set-IsSameSpace :
    (t : ThreadState) (index current : ℕ) (frame : CallFrameHeader)
    → IsSameSpace t (record t { frames = set t.frames index frame; current_frame = current })
set-IsSameSpace t index current frame = record {
  same_stack_base = refl;
  same_frame_base = refl;
  same_slots = refl;
  same_capacity = length-set t.frames index frame;
}

pub popped-IsStacked :
    (t : ThreadState) (index : ℕ) → IsStacked t (suc index) → IsStacked (popped t index) index
popped-IsStacked t index v =
    same_space-IsStacked t (popped t index) (suc index) index
      (set-IsSameSpace t index (below_address t index) blank_frame) (omega arith) refl
      (λ j inside.
        other-IsSameWindow t (popped t index) index j blank_frame refl
          (λ same. omega (arith, same, inside)))
      v

-- A pop succeeds when a frame is in use, and only then.
pub pop_frame-parts :
    (t t' : ThreadState) (frame : CallFrameHeader) (depth : ℕ)
    → pop_frame t ≡ ok (t', frame)
    → IsStacked t depth
    → (index : ℕ) × (depth ≡ suc index) × (popped t index ≡ t') × (header_at t index ≡ frame)
unfolding pop_frame
pop_frame-parts t t' frame zero eq v =
    absurd (ground (arith, rw (pop_frame, current_frame_index-none t v.current) at eq))
pop_frame-parts t t' frame (suc index) eq v =
    let current = current_frame_index-some t index v.is_thread (omega (arith, v.fits)) v.current in
    let (same, same') = ok_pair (sym (pop_frame-current t index current) ∙ eq) in
    (index, refl, same, same')

-- What holds of the frames below an index and of the frame there.
up_to :
    (P : ℕ → Type 0) (index : ℕ)
    → P index
    → ((j : ℕ) → j < index → P j)
    → (j : ℕ) → j < suc index
    → P j
up_to P index top below j inside = elim (Bool-cases (index == j)) [
  | inl eq ↦ subst P ((==_iff index j).0 eq) top
  | inr ne ↦ below j (ground (arith, ne, inside))
]

with_frame-top :
    (t : ThreadState) (index : ℕ) (frame : CallFrameHeader)
    → index < length t.frames
    → header_at (with_frame t index frame) index ≡ frame
unfolding with_frame
with_frame-top t index frame inside = get_or-set_self t.frames index frame blank_frame inside

with_frame-IsStacked :
    (t : ThreadState) (index base : ℕ) (frame : CallFrameHeader)
    → index < length t.frames
    → IsWindow t frame base
    → frame.prev_frame ≡ below_address t index
    → IsStacked t index
    → IsStacked (with_frame t index frame) (suc index)
unfolding with_frame
with_frame-IsStacked t index base frame inside w linked v =
    let t' = with_frame t index frame in
    let s = set-IsSameSpace t index ((t.frame_base + index * 0x60) % 2 ^ 64) frame in
    let top = with_frame-top t index frame inside in
    let same : (j : ℕ) → j < index → IsSameWindow (header_at t j) (header_at t' j) =
      λ j less. other-IsSameWindow t t' index j frame refl (λ eq. omega (arith, eq, less)) in
    record {
      is_thread = same_space-IsThread t t' s v.is_thread;
      fits = omega (arith, inside, length-set t.frames index frame);
      current = ground arith;
      windows =
          up_to (λ j. (b : ℕ) × IsWindow t' (header_at t' j) b) index
            (
              base,
              subst (λ f. IsWindow t' f base) (sym top)
                  (same_space-IsWindow t t' frame frame base s (IsSameWindow-refl frame) w),
            )
            (λ j less.
              let (b, x) = v.windows j less in
              (b, same_space-IsWindow t t' (header_at t j) (header_at t' j) b s (same j less) x));
      links =
          up_to (λ j. (header_at t' j).prev_frame ≡ below_address t' j) index
            (ap (λ f. f.prev_frame) top ∙ linked ∙ sym (same_space-below t t' index s))
            (λ j less. (same j less).same_prev ∙ v.links j less ∙ sym (same_space-below t t' j s));
    }

pub push_frame-IsStacked :
    (t t' : ThreadState) (spec : FrameSpec) (frame : CallFrameHeader) (depth : ℕ)
    → spec.register_count < 2 ^ 16
    → spec.spill_count < 2 ^ 16
    → push_frame t spec ≡ ok (t', frame)
    → IsStacked t depth
    → IsStacked t' (suc depth)
push_frame-IsStacked t t' spec frame depth few few' eq v =
    let (index, p) = push_frame-parts t t' spec frame v.is_thread eq in
    let same =
      below_address-injective t index depth v.is_thread (omega (arith, p.inside)) v.fits
        (p.below ∙ v.current) in
    let (at, inside) = window_of t spec frame.regs_base v.is_thread p.regs_at p.enough few few' in
    let w : IsWindow t frame spec.register_base = record {
      at_base = at;
      inside = omega (arith, inside, p.registers, p.spills);
    } in
    subst (λ d. IsStacked t' (suc d)) same
      (subst (λ u. IsStacked u (suc index)) p.made
        (with_frame-IsStacked t index spec.register_base frame p.inside w p.links
          (subst (IsStacked t) (sym same) v)))
