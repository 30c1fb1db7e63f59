-- ===== src/Table/Store/Invariant.antt =====
-- What holds of every table that the store keeps, and the parts that its steps leave alone.
use vex_lua.Base.{
  ℕ, zero, suc, ◌+◌, ◌<◌, ◌≡◌, ◌≢◌, refl, ap, ◌∙◌, Bool, true, false, not, ◌&&◌, ◌||◌, List, [],
  ◌∷◌, length, replicate, length-append, length-replicate, subst, ◌==◌, Result, ok, inr, ◌⊎◌,
  >>=-eq-ok,
}
use vex_lua.Table.Layout.{
  Object, bump_version, sync_layout_flags, ctrl_empty, ctrl_sentinel, empty_entry,
}
use vex_lua.Table.Keys.{normalize_hash_capacity}
use vex_lua.Table.Find.{Error}
use vex_lua.Table.Find.Update.{IsSized}
use vex_lua.Table.Store.{HeapOps, Table, cells_of}
use vex_lua.Table.Store.Grow.{
  with_array, with_hash, copy_slots, at_least, ensure_array_capacity, ensure_hash_capacity,
  refresh_array_len_hint, bump_if,
}

pub ok-second :
    {A B : Type 0} {a c : A} {b d : B}
    → ◌≡◌ {A = Result Error (A × B)} (ok (a, b)) (ok (c, d))
    → b ≡ d
ok-second h = cc

-- The heap never gives out offset 0, which means "no region".
pub record HeapLaws {H : Type 0} (ops : HeapOps H) : Type 0 where
  pub some_offset :
      (h : H) (size layout owner : ℕ) (h' : H) (offset : ℕ)
      → ops.alloc_payload h size layout owner ≡ ok (h', offset)
      → offset ≢ 0

abbrev pub HasArray : Table → Type 0
HasArray t =
    (length t.array ≡ t.object.array_cap) × ((t.object.array_cap ≡ 0) ⊎ (t.object.array_data ≢ 0))

abbrev pub HasHash : Table → Type 0
HasHash t =
    (t.object.hash_capacity ≡ 0)
    ⊎ (IsSized (cells_of t) × (t.object.ctrl_data ≢ 0) × (t.object.entries_data ≢ 0))

-- The regions are as long as the object says, and there is one wherever a capacity is not 0.
abbrev pub IsTable : Table → Type 0
IsTable t = HasArray t × HasHash t

-- The fields that say where the array part is, and the hash part.
abbrev pub SameArray : Object → Object → Type 0
SameArray a b = (a.array_cap ≡ b.array_cap) × (a.array_data ≡ b.array_data)

abbrev pub SameHash : Object → Object → Type 0
SameHash a b =
    (a.hash_capacity ≡ b.hash_capacity)
    × (a.ctrl_data ≡ b.ctrl_data)
    × (a.entries_data ≡ b.entries_data)
    × (a.hash_seed ≡ b.hash_seed)

abbrev pub SameLayout : Object → Object → Type 0
SameLayout a b = SameArray a b × SameHash a b

pub bump_version_same : (o : Object) → SameLayout (bump_version o) o
unfolding bump_version
bump_version_same o = ((refl, refl), (refl, refl, refl, refl))

pub sync_same : (o : Object) → SameLayout (sync_layout_flags o) o
unfolding sync_layout_flags
sync_same o = ((refl, refl), (refl, refl, refl, refl))

pub bump_if_same : (b : Bool) (o : Object) → SameLayout (bump_if b o) o
bump_if_same true o = bump_version_same o
bump_if_same false o = ((refl, refl), (refl, refl, refl, refl))

pub refresh_same : (t : Table) → SameLayout (refresh_array_len_hint t).object (t.object)
unfolding refresh_array_len_hint
refresh_same t = ((refl, refl), (refl, refl, refl, refl))

pub same_trans : (a b c : Object) → SameLayout a b → SameLayout b c → SameLayout a c
same_trans a b c ((p₁, p₂), (p₃, p₄, p₅, p₆)) ((q₁, q₂), (q₃, q₄, q₅, q₆)) =
    ((p₁ ∙ q₁, p₂ ∙ q₂), (p₃ ∙ q₃, p₄ ∙ q₄, p₅ ∙ q₅, p₆ ∙ q₆))

pub length-copy_slots : (n : ℕ) (old : List ℕ) → length (copy_slots n old) ≡ n
unfolding copy_slots
length-copy_slots zero old = refl
length-copy_slots (suc n) [] = ap suc (length-copy_slots n [])
length-copy_slots (suc n) (v ∷ old) = ap suc (length-copy_slots n old)

-- What a new array region changes, and what it leaves.
abbrev pub ArrayGrown : Table → Table → Type 0
ArrayGrown t t' =
    HasArray t' × SameHash (t'.object) (t.object) × (t'.ctrl ≡ t.ctrl) × (t'.entries ≡ t.entries)

with_array_lem :
    (t : Table) (target offset : ℕ) → offset ≢ 0 → ArrayGrown t (with_array t target offset)
unfolding with_array sync_layout_flags
with_array_lem t target offset there =
    let bumped =
      bump_if_same (not (t.object.array_data == 0) && not (t.object.array_data == offset))
        t.object in
    ((length-copy_slots target _, inr there), bumped.1, refl, refl)

-- What new hash regions change, and what they leave.
abbrev pub HashGrown : Table → Table → Type 0
HashGrown t t' =
    IsSized (cells_of t')
    × (t'.object.ctrl_data ≢ 0)
    × (t'.object.entries_data ≢ 0)
    × SameArray (t'.object) (t.object)
    × (t'.array ≡ t.array)
    × (t'.object.hash_seed ≡ t.object.hash_seed)

with_hash_lem :
    (t : Table) (target ctrl entries : ℕ)
    → 0 < target
    → ctrl ≢ 0
    → entries ≢ 0
    → HashGrown t (with_hash t target ctrl entries)
unfolding with_hash sync_layout_flags
with_hash_lem t target ctrl entries positive c e =
    let bumped =
      bump_if_same (not (t.object.ctrl_data == 0) || not (t.object.entries_data == 0)) t.object in
    (
      record {
        some_slot = positive;
        ctrl_length =
            length-append (replicate target ctrl_empty) (ctrl_sentinel ∷ [])
            ∙ ap (λ x. x + 1) (length-replicate target ctrl_empty);
        entries_length = length-replicate target empty_entry;
      },
      c,
      e,
      bumped.0,
      refl,
      bumped.1.3,
    )

module _ {H : Type 0} (ops : HeapOps H) (laws : HeapLaws ops) (owner : ℕ) where
  -- A larger array has its slots, and the hash part stays as it was.
  pub ensure_array_lem :
      (h h' : H) (t t' : Table) (minimum : ℕ)
      → ensure_array_capacity ops owner h t minimum ≡ ok (h', t')
      → ArrayGrown t t'
  unfolding ensure_array_capacity
  ensure_array_lem h h' t t' minimum eq =
      let ((h₁, offset), alloc, rest) = >>=-eq-ok _ _ eq in
      let there = laws.some_offset h _ _ owner h₁ offset alloc in
      subst (ArrayGrown t) (ok-second rest) (with_array_lem t _ offset there)

  pub ensure_hash_lem :
      (h h' : H) (t t' : Table) (minimum : ℕ)
      → 0 < at_least (normalize_hash_capacity minimum) t.object.hash_capacity
      → ensure_hash_capacity ops owner h t minimum ≡ ok (h', t')
      → HashGrown t t'
  unfolding ensure_hash_capacity
  ensure_hash_lem h h' t t' minimum positive eq =
      let ((h₁, ctrl), alloc, rest) = >>=-eq-ok _ _ eq in
      let ((h₂, entries), alloc', rest') = >>=-eq-ok _ _ rest in
      let c = laws.some_offset h _ _ owner h₁ ctrl alloc in
      let e = laws.some_offset h₁ _ _ owner h₂ entries alloc' in
      subst (HashGrown t) (ok-second rest') (with_hash_lem t _ ctrl entries positive c e)
