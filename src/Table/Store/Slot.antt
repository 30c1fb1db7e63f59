-- ===== src/Table/Store/Slot.antt =====
-- `setArrayValue`: the slot is written, and nothing else of the table.
use vex_lua.Base.{
  ℕ, ◌-◌, ◌<◌, ◌≤◌, ◌≡◌, refl, sym, ◌∙◌, subst, Bool, true, false, not, ◌&&◌, set, leb, ◌==◌,
  if◌then◌else◌, ok, ◌>>◌, guard, arith, >>=-eq-ok, length-set, get_or-set_self,
}
use vex_lua.Table.Layout.{Object, nil_word, sync_layout_flags, is_nil_value}
use vex_lua.Table.Find.{Error, array_range}
use vex_lua.Table.Store.{HeapOps, Table, outside, read_array_slot, write_array_slot}
use vex_lua.Table.Store.Grow.{bump_if, ensure_array_capacity, refresh_array_len_hint}
use vex_lua.Table.Store.Write.{differ, barrier_or_remember, set_array_value}
use vex_lua.Table.Store.Invariant.{
  HeapLaws, HasArray, SameArray, SameLayout, ArrayGrown, ok-second, bump_if_same, sync_same,
  refresh_same, same_trans, ensure_array_lem,
}

-- What writing one slot does.
abbrev pub SlotWritten : Table → Table → ℕ → ℕ → Type 0
SlotWritten t t' index value =
    ArrayGrown t t'
    × (read_array_slot t' index ≡ value)
    × (0 < index)
    × (index ≤ t'.object.array_cap)

abbrev slot_set : Table → ℕ → ℕ → Table
slot_set t index value = record t { array = set t.array (index - 1) value }

pub inside_lem :
    (b : Bool) (e : Error) (x y : Table) → (guard (not b) e >> ok x) ≡ ok y → (b ≡ false) × (x ≡ y)
inside_lem true e x y h = cc
inside_lem false e x y h = (refl, ground (arith, h))

slot_set_lem :
    (t : Table) (index value : ℕ)
    → HasArray t
    → outside t.object index ≡ false
    → SlotWritten t (slot_set t index value) index value
unfolding read_array_slot
slot_set_lem t index value (len, there) inside =
    let some_index : 0 < index = ground arith in
    let bound : index ≤ t.object.array_cap = ground arith in
    (
      ((length-set t.array (index - 1) value ∙ len, there), (refl, refl, refl, refl), refl, refl),
      rw inside (
          get_or-set_self t.array (index - 1) value nil_word
            (omega (arith, some_index, bound, len))),
      some_index,
      bound,
    )

write_lem :
    (t t' : Table) (index value : ℕ)
    → HasArray t
    → write_array_slot t index value ≡ ok t'
    → SlotWritten t t' index value
unfolding write_array_slot
write_lem t t' index value v h =
    let (inside, same) =
      inside_lem (outside t.object index) (array_range index) (slot_set t index value) t' h in
    subst (λ x. SlotWritten t x index value) same (slot_set_lem t index value v inside)

-- Flags, version and length hint are not read by the slots.
pub read_array_slot_congr :
    (t t' : Table) (index : ℕ)
    → SameArray (t'.object) (t.object)
    → t'.array ≡ t.array
    → read_array_slot t' index ≡ read_array_slot t index
unfolding read_array_slot
read_array_slot_congr t t' index (p, q) a = rw (p, q, a) refl

finish_lem :
    (t g w : Table) (b o : Object) (index value : ℕ)
    → ArrayGrown t g
    → SameLayout b (g.object)
    → SlotWritten (record g { object = b }) w index value
    → SameLayout o (w.object)
    → SlotWritten t (record w { object = o }) index value
finish_lem t g w b o index value (len, (g₁, g₂, g₃, g₄), gc, ge) (ba, (b₁, b₂, b₃, b₄))
      (((wl, there), (w₁, w₂, w₃, w₄), wc, we), at, some_index, bound) (oa, (o₁, o₂, o₃, o₄)) =
    (
      (
        (wl ∙ sym oa.0, ground (arith, there, oa.0, oa.1)),
        (o₁ ∙ w₁ ∙ b₁ ∙ g₁, o₂ ∙ w₂ ∙ b₂ ∙ g₂, o₃ ∙ w₃ ∙ b₃ ∙ g₃, o₄ ∙ w₄ ∙ b₄ ∙ g₄),
        wc ∙ gc,
        we ∙ ge,
      ),
      read_array_slot_congr w (record w { object = o }) index oa refl ∙ at,
      some_index,
      omega (arith, bound, oa.0),
    )

bumped_array :
    (g : Table) (b : Object)
    → SameLayout b (g.object)
    → HasArray g
    → HasArray (record g { object = b })
bumped_array g b (ba, bh) (len, there) = (len ∙ sym ba.0, ground (arith, there, ba.0, ba.1))

module _ {H : Type 0} (ops : HeapOps H) (laws : HeapLaws ops) (owner : ℕ) where
  room_lem :
      (h h' : H) (t g : Table) (index : ℕ) (b : Bool)
      → HasArray t
      → (if b then ok (h, t) else ensure_array_capacity ops owner h t index) ≡ ok (h', g)
      → ArrayGrown t g
  room_lem h h' t g index true v eq =
      subst (ArrayGrown t) (ok-second eq) (v, (refl, refl, refl, refl), refl, refl)
  room_lem h h' t g index false v eq = ensure_array_lem ops laws owner h h' t g index eq

  -- Setting a value in the array part writes its slot, which is then in range, and leaves the hash
  -- part as it was.
  pub set_array_value_lem :
      (h h' : H) (t t' : Table) (index value : ℕ)
      → HasArray t
      → set_array_value ops owner h t index value ≡ ok (h', t')
      → SlotWritten t t' index value
  unfolding set_array_value refresh_array_len_hint
  set_array_value_lem h h' t t' index value v eq =
      let ((h₁, g), room, rest) = >>=-eq-ok _ _ eq in
      let grown = room_lem h h₁ t g index (leb index t.object.array_cap) v room in
      let previous = read_array_slot g index in
      let changed =
        not (previous == value) && differ (is_nil_value previous) (is_nil_value value) in
      let same = bump_if_same changed g.object in
      let (w, wrote, rest') = >>=-eq-ok _ _ rest in
      let (h₂, barrier, rest'') =
        >>=-eq-ok (barrier_or_remember ops owner h₁ w.object value) _ rest' in
      let slot =
        write_lem (record g { object = bump_if changed g.object }) w index value
          (bumped_array g (bump_if changed g.object) same grown.0) wrote in
      subst (λ x. SlotWritten t x index value) (ok-second rest'')
        (finish_lem t g w (bump_if changed g.object)
          (sync_layout_flags (refresh_array_len_hint w).object) index value grown same slot
          (same_trans (sync_layout_flags (refresh_array_len_hint w).object)
            (refresh_array_len_hint w).object w.object (sync_same (refresh_array_len_hint w).object)
            (refresh_same w)))
