-- ===== src/Table/Store/Slots.antt =====
-- `setArrayValue` leaves the other slots of the array part.
use vex_lua.Base.{
  ℕ, zero, suc, ◌-◌, ◌*◌, ◌≤◌, ◌≡◌, ◌≢◌, refl, ap, sym, ◌∙◌, subst, Bool, true, false, not, ◌&&◌,
  ◌||◌, List, [], ◌∷◌, length, get_or, set, leb, ◌==◌, if◌then◌else◌, ok, inl, inr, arith,
  >>=-eq-ok, get_or-set_ne, get_or_past, Bool-cases,
}
use vex_lua.Table.Layout.{nil_word, is_nil_value}
use vex_lua.Table.Keys.{next_power_of_two}
use vex_lua.Table.Find.{array_range}
use vex_lua.Table.Store.{HeapOps, Table, outside, read_array_slot, write_array_slot}
use vex_lua.Table.Store.Grow.{
  bump_if, copy_slots, with_array, at_least, ensure_array_capacity, refresh_array_len_hint,
  tvalue_size, layout_tvalue_array,
}
use vex_lua.Table.Store.Write.{differ, barrier_or_remember, set_array_value}
use vex_lua.Table.Store.Invariant.{HeapLaws, HasArray, ok-second}
use vex_lua.Table.Store.Slot.{set_array_value_lem, inside_lem}
use vex_lua.Table.Store.Rehash.{at_least-ge}

get_or-copy_slots :
    (n : ℕ) (old : List ℕ) (k : ℕ)
    → length old ≤ n
    → get_or (copy_slots n old) k nil_word ≡ get_or old k nil_word
unfolding copy_slots
get_or-copy_slots zero [] k fits = refl
get_or-copy_slots zero (v ∷ old) k fits = absurd (omega (arith, fits))
get_or-copy_slots (suc n) [] zero fits = refl
get_or-copy_slots (suc n) [] (suc k) fits = get_or-copy_slots n [] k (omega arith)
get_or-copy_slots (suc n) (v ∷ old) zero fits = refl
get_or-copy_slots (suc n) (v ∷ old) (suc k) fits = get_or-copy_slots n old k (omega (arith, fits))

-- Where the array is as its object says, a slot past its end is nil like one out of range.
read_array_slot-suc :
    (t : Table) (k : ℕ) → HasArray t → read_array_slot t (suc k) ≡ get_or t.array k nil_word
unfolding read_array_slot
read_array_slot-suc t k (len, there) = ground (arith, len, there, get_or_past t.array k nil_word)

read_array_slot-zero : (t : Table) → read_array_slot t 0 ≡ nil_word
unfolding read_array_slot
read_array_slot-zero t = refl

-- The slots of a larger array are those of the old one, and nil.
abbrev SameSlots : Table → Table → Type 0
SameSlots t g = (k : ℕ) → get_or g.array k nil_word ≡ get_or t.array k nil_word

with_array-SameSlots :
    (t : Table) (target offset : ℕ)
    → HasArray t
    → t.object.array_cap ≤ target
    → SameSlots t (with_array t target offset)
unfolding with_array
with_array-SameSlots t target offset (len, there) fits k =
    elim (Bool-cases (t.object.array_cap == 0 || t.object.array_data == 0)) [
      | inl none_there ↦
          (let empty : length t.array ≤ 0 = ground (arith, len, there, none_there) in
            rw none_there (
              get_or-copy_slots target [] k (omega arith)
              ∙ sym (get_or_past t.array k nil_word (omega (arith, empty)))))
      | inr some_there ↦
          rw some_there (get_or-copy_slots target t.array k (omega (arith, len, fits)))
    ]

module _ {H : Type 0} (ops : HeapOps H) (laws : HeapLaws ops) (owner : ℕ) where
  ensure_array_capacity-SameSlots :
      (h h' : H) (t g : Table) (minimum : ℕ)
      → HasArray t
      → ensure_array_capacity ops owner h t minimum ≡ ok (h', g)
      → SameSlots t g
  unfolding ensure_array_capacity
  ensure_array_capacity-SameSlots h h' t g minimum v eq =
      let target = at_least (next_power_of_two minimum) t.object.array_cap in
      let ((h₁, offset), alloc, rest) =
        >>=-eq-ok (ops.alloc_payload h (target * tvalue_size) layout_tvalue_array owner) _ eq in
      subst (SameSlots t) (ok-second rest) (
        with_array-SameSlots t target offset v
          (at_least-ge (next_power_of_two minimum) t.object.array_cap))

  room-SameSlots :
      (h h' : H) (t g : Table) (index : ℕ) (b : Bool)
      → HasArray t
      → (if b then ok (h, t) else ensure_array_capacity ops owner h t index) ≡ ok (h', g)
      → SameSlots t g
  room-SameSlots h h' t g index true v eq = subst (SameSlots t) (ok-second eq) (λ k. refl)
  room-SameSlots h h' t g index false v eq = ensure_array_capacity-SameSlots h h' t g index v eq

  written_array :
      (t w : Table) (index value : ℕ)
      → write_array_slot t index value ≡ ok w
      → w.array ≡ set t.array (index - 1) value
  unfolding write_array_slot
  written_array t w index value eq = sym (
      ap (λ x. x.array)
        (inside_lem (outside t.object index) (array_range index)
          (record t { array = set t.array (index - 1) value }) w eq).1)

  set_array_value-array :
      (h h' : H) (t t' : Table) (index value : ℕ)
      → HasArray t
      → set_array_value ops owner h t index value ≡ ok (h', t')
      → (g : Table) × SameSlots t g × (t'.array ≡ set g.array (index - 1) value)
  unfolding set_array_value refresh_array_len_hint
  set_array_value-array h h' t t' index value v eq =
      let ((h₁, g), room, rest) = >>=-eq-ok _ _ eq in
      let previous = read_array_slot g index in
      let changed =
        not (previous == value) && differ (is_nil_value previous) (is_nil_value value) in
      let (w, wrote, rest') = >>=-eq-ok _ _ rest in
      let (h₂, barrier, last) =
        >>=-eq-ok (barrier_or_remember ops owner h₁ w.object value) _ rest' in
      (
        g,
        room-SameSlots h h₁ t g index (leb index t.object.array_cap) v room,
        sym (ap (λ x. x.array) (ok-second last))
            ∙ written_array (record g { object = bump_if changed g.object }) w index value wrote,
      )

  -- Every slot but the written one reads as before, in range or not.
  pub set_array_value-others :
      (h h' : H) (t t' : Table) (index value j : ℕ)
      → HasArray t
      → j ≢ index
      → set_array_value ops owner h t index value ≡ ok (h', t')
      → read_array_slot t' j ≡ read_array_slot t j
  set_array_value-others h h' t t' index value zero v ne eq =
      read_array_slot-zero t' ∙ sym (read_array_slot-zero t)
  set_array_value-others h h' t t' index value (suc k) v ne eq =
      let (grown, at, positive, low) =
        set_array_value_lem ops laws owner h h' t t' index value v eq in
      let (g, same, array) = set_array_value-array h h' t t' index value v eq in
      read_array_slot-suc t' k grown.0
      ∙ ap (λ l. get_or l k nil_word) array
      ∙ get_or-set_ne g.array (index - 1) k value nil_word (λ e. ne (omega (arith, e, positive)))
      ∙ same k
      ∙ sym (read_array_slot-suc t k v)
