-- ===== src/Table/Store/Ordered.antt =====
-- `Set` keeps the hash part in order: it finds each of its entries.
use vex_lua.Base.{
  ℕ, ◌≡◌, ◌≢◌, refl, ap, sym, ◌∙◌, subst, Bool, true, false, not, ◌&&◌, ◌==◌, if◌then◌else◌, ok,
  arith, inl, inr, ◌⊎◌, >>=-eq-ok, Bool-cases, Option-cases,
}
use vex_lua.Table.Layout.{is_nil_value, min_hash_capacity}
use vex_lua.Table.Store.{HeapOps, Table, cells_of, find_in, probe_key}
use vex_lua.Table.Store.Grow.{ensure_hash_capacity}
use vex_lua.Table.Store.Write.{
  check_key, make_room, set_in_hash, first_hash_part, set_hash_value, set_key, array_target,
}
use vex_lua.Table.Store.Invariant.{
  HeapLaws, HasHash, IsTable, HashGrown, SameHash, ok-second, ensure_hash_lem,
}
use vex_lua.Table.Store.Slot.{set_array_value_lem}
use vex_lua.Table.Store.Hash.{find_in_regions, probe_key-key}
use vex_lua.Table.Store.Rehash.{first_hash_part_lem, make_room_lem, same_lem, minimum_lem}
use vex_lua.Table.Store.Moved.{IsOrdered}
use vex_lua.Table.Store.Regrown.{ensure-IsBare, bare-IsOrdered}
use vex_lua.Table.Store.Step.{set_key_lem}
use vex_lua.Table.Store.Laws.{target_lem}
use vex_lua.Table.Store.Place.{hash_path, array_path}
use vex_lua.Table.Store.Kept.{set_hash_nil}
use vex_lua.Table.Store.Others.{apart_probe, apart_probe_lem}
use vex_lua.Table.Store.Spared.{place-Spares, make_room-Keeps}

-- The hash part, where there is one, finds each of its entries.
abbrev pub HasOrder : Table → Type 0
HasOrder t = (t.object.hash_capacity ≡ 0) ⊎ IsOrdered (cells_of t)

pub ordered : (t : Table) → HasOrder t → t.object.hash_capacity ≢ 0 → IsOrdered (cells_of t)
ordered t (inl none_there) some_there = absurd (some_there none_there)
ordered t (inr v) some_there = v

SameHash-HasOrder :
    (t u : Table)
    → SameHash (u.object) (t.object)
    → u.ctrl ≡ t.ctrl
    → u.entries ≡ t.entries
    → HasOrder t
    → HasOrder u
SameHash-HasOrder t u (a, b, c, d) p q (inl none_there) = inl (a ∙ none_there)
SameHash-HasOrder t u (a, b, c, d) p q (inr v) = inr (subst IsOrdered (sym same) v)
  where
    same : cells_of u ≡ cells_of t
    same = rw (a, p, q) refl

module _ {H : Type 0} (ops : HeapOps H) (laws : HeapLaws ops) (owner : ℕ) where
  set_in_hash-IsOrdered :
      (h h' : H) (base t t' : Table) (key value : ℕ)
      → HashGrown base t
      → IsOrdered (cells_of t)
      → check_key key ≡ ok tt
      → set_in_hash ops owner h t key value ≡ ok (h', t')
      → IsOrdered (cells_of t')
  unfolding set_in_hash
  set_in_hash-IsOrdered h h' base t t' key value g v c eq =
      let ((p, aux), k, rest) = >>=-eq-ok (probe_key ops t.object key) _ eq in
      let (r, f, last) = >>=-eq-ok (find_in t p) _ rest in
      let through = find_in_regions t p (λ z. omega (arith, z, g.0.some_slot)) (g.1) (g.2) in
      (place-Spares ops owner h h' t t' p (apart_probe p) aux value v (apart_probe_lem p) r
        (ap check_key (probe_key-key ops t.object key aux p k) ∙ c) (sym through ∙ f) last).0

  first_hash_part-IsOrdered :
      (h h' : H) (t t' : Table) (value : ℕ)
      → HasOrder t
      → is_nil_value value ≡ false
      → first_hash_part ops owner h t value ≡ ok (h', t')
      → IsOrdered (cells_of t')
  unfolding first_hash_part
  first_hash_part-IsOrdered h h' t t' value v full eq =
      go (t.object.hash_capacity == 0 && not (is_nil_value value)) refl eq
    where
      go :
          (b : Bool)
          → (t.object.hash_capacity == 0 && not (is_nil_value value)) ≡ b
          → (if b then ensure_hash_capacity ops owner h t min_hash_capacity else ok (h, t))
            ≡ ok (h', t')
          → IsOrdered (cells_of t')
      go true test rest =
          bare-IsOrdered (cells_of t')
            (ensure_hash_lem ops laws owner h h' t t' min_hash_capacity
              (minimum_lem t.object.hash_capacity) rest).0
            (ensure-IsBare ops laws owner h h' t t' min_hash_capacity rest)
      go false test rest =
          subst (λ x. IsOrdered (cells_of x)) (ok-second rest)
            (ordered t v (λ z. ground (arith, z, full, test)))

  set_hash_value-HasOrder :
      (h h' : H) (t t' : Table) (key value : ℕ)
      → HasHash t
      → HasOrder t
      → check_key key ≡ ok tt
      → set_hash_value ops owner h t key value ≡ ok (h', t')
      → HasOrder t'
  unfolding set_hash_value
  set_hash_value-HasOrder h h' t t' key value v o c eq = elim (Bool-cases (is_nil_value value)) [
    | inl gone ↦ elim (set_hash_nil ops owner h h' t t' key value gone eq) [
      | inl same ↦ subst HasOrder same o
      | inr (some_slot, rest) ↦ inr (
          set_in_hash-IsOrdered h h' t t t' key value (same_lem ops laws owner t v some_slot)
            (ordered t o some_slot) c rest)
    ]
    | inr full ↦
        (let ((h₁, t₁), first, rest) = >>=-eq-ok (first_hash_part ops owner h t value) _ eq in
          let g = first_hash_part_lem ops laws owner h h₁ t t₁ value v full first in
          let ((h₂, t₂), room, last) =
            >>=-eq-ok (make_room ops owner h₁ t₁ value)
              (λ x. set_in_hash ops owner (x.0) (x.1) key value)
              (ground (arith, g.0.some_slot, rest)) in
          let o₁ = first_hash_part-IsOrdered h h₁ t t₁ value o full first in
          inr (
            set_in_hash-IsOrdered h₂ h' t t₂ t' key value
              (make_room_lem ops laws owner h₁ h₂ t t₁ t₂ value g room)
              (make_room-Keeps ops laws owner h₁ h₂ t₁ t₂ value o₁ room).0 c last))
  ]

  -- Over a heap that never gives out offset 0, a `Set` that succeeds keeps the hash part of a table
  -- in order: after it every entry of the hash part is found by its key.
  pub set_key-HasOrder :
      (h h' : H) (t t' : Table) (key value : ℕ)
      → IsTable t
      → HasOrder t
      → set_key ops owner h t key value ≡ ok (h', t')
      → HasOrder t'
  set_key-HasOrder h h' t t' key value (va, vh) o eq =
      let (h₁, u, c, s, ((array, hash), a, p, q)) = set_key_lem ops owner h h' t t' key value eq in
      SameHash-HasOrder u t' hash p q (elim (Option-cases (array_target t key value)) [
        | inr (i, at) ↦
            (let (index, path) = array_path ops laws owner t key value i at in
              let ((there, same, cs, es), here, positive, low) =
                set_array_value_lem ops laws owner h h₁ t u i value va
                  (sym (target_lem ops laws owner h t key value i index path) ∙ s) in
              SameHash-HasOrder t u same cs es o)
        | inl none_there ↦
            set_hash_value-HasOrder h h₁ t u key value vh o c
              (sym (hash_path ops laws owner h t key value none_there) ∙ s)
      ])
