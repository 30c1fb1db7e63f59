-- ===== src/Table/Store/Step.antt =====
-- `Set` as its steps: the write of the value, then of the object, then the release of old regions.
use native.Mathlib.Nat.{div-add-mod}
use vex_lua.Base.{
  ℕ, ◌+◌, ◌-◌, ◌*◌, ◌/◌, ◌%◌, ◌^◌, ◌<◌, ◌≡◌, refl, ap, ◌∙◌, subst, some, ok, arith, >>=-eq-ok,
  ℕ_discrete, ok_injective,
}
use vex_lua.Base.Float.{positive_u32, exponent, fraction}
use vex_lua.Table.Layout.{sync_layout_flags}
use vex_lua.Table.Keys.{array_index}
use vex_lua.Table.Store.{HeapOps, Table, hash_regions, find_in, probe_key}
use vex_lua.Table.Store.Write.{
  check_key, set_value, with_mark, store_object, release_detached_payloads, set_key,
}
use vex_lua.Table.Store.Read.{get_in_hash}
use vex_lua.Table.Store.Invariant.{SameHash, SameLayout, ok-second}

quotient_lem :
    (x n : ℕ)
    → positive_u32 x ≡ some n
    → ((2 ^ 52 + fraction x) % 2 ^ (1075 - exponent x) ≡ 0)
      × ((2 ^ 52 + fraction x) / 2 ^ (1075 - exponent x) ≡ n)
unfolding positive_u32
quotient_lem x n h = ground arith

positive_u32-positive : (x n : ℕ) → positive_u32 x ≡ some n → 0 < n
positive_u32-positive x n h =
    let unit = 2 ^ (1075 - exponent x) in
    let (rem, quot) = quotient_lem x n h in
    let whole = div-add-mod (2 ^ 52 + fraction x) unit in
    elim (ℕ_discrete n 0) [
      | yes none_left ↦ absurd (omega (arith, whole, rem, ap (λ y. unit * y) (quot ∙ none_left)))
      | no some_left ↦ omega (arith, some_left)
    ]

pub array_index-positive : (key n : ℕ) → array_index key ≡ some n → 0 < n
unfolding array_index
array_index-positive key n h = ground (arith, positive_u32-positive key n)

-- The hash part is searched alike in two tables that have the same one.
pub get_in_hash_congr :
    {H : Type 0} (ops : HeapOps H) (t t' : Table) (key : ℕ)
    → SameHash (t'.object) (t.object)
    → t'.ctrl ≡ t.ctrl
    → t'.entries ≡ t.entries
    → get_in_hash ops t' key ≡ get_in_hash ops t key
unfolding get_in_hash probe_key find_in hash_regions
get_in_hash_congr ops t t' key (a, b, c, d) p q = rw (a, b, c, d, p, q) refl

-- A table with the object as it is written back.
abbrev pub StoredAs : Table → Table → Type 0
StoredAs t' u =
    SameLayout (t'.object) (u.object)
    × (t'.array ≡ u.array)
    × (t'.ctrl ≡ u.ctrl)
    × (t'.entries ≡ u.entries)

with_mark_lem : (u : Table) (mark : ℕ) → StoredAs (with_mark u mark) u
unfolding with_mark sync_layout_flags
with_mark_lem u mark = (((refl, refl), (refl, refl, refl, refl)), refl, refl, refl)

module _ {H : Type 0} (ops : HeapOps H) (owner : ℕ) where
  store_lem : (h : H) (u t' : Table) → store_object ops owner h u ≡ ok t' → StoredAs t' u
  unfolding store_object
  store_lem h u t' eq =
      let (mark, m, rest) = >>=-eq-ok (ops.header_mark h owner) _ eq in
      subst (λ x. StoredAs x u) (ok_injective rest) (with_mark_lem u mark)

  pub set_key_lem :
      (h h' : H) (t t' : Table) (key value : ℕ)
      → set_key ops owner h t key value ≡ ok (h', t')
      → (h₁ : H) × (u : Table) × (check_key key ≡ ok tt)
        × (set_value ops owner h t key value ≡ ok (h₁, u))
        × StoredAs t' u
  unfolding set_key
  set_key_lem h h' t t' key value eq =
      let (checked, c, rest) = >>=-eq-ok _ _ eq in
      let ((h₁, u), s, rest') = >>=-eq-ok _ _ rest in
      let (w, wrote, rest'') = >>=-eq-ok _ _ rest' in
      let (h₂, released, last) =
        >>=-eq-ok (release_detached_payloads ops owner h₁ t.object u.object) _ rest'' in
      (h₁, u, c, s, subst (λ x. StoredAs x u) (ok-second last) (store_lem h₁ u w wrote))
