-- ===== src/Table/Store/Spared.antt =====
-- `setHashValue` keeps the values of all other keys.
use vex_lua.Base.{
  ℕ, ◌+◌, ◌%◌, ◌^◌, ◌*◌, ◌≡◌, refl, ap, sym, ◌∙◌, subst, Bool, true, false, not, ◌&&◌, Option, none,
  some, ◌==◌, if◌then◌else◌, ok, arith, >>=-eq-ok, ltb,
}
use vex_lua.Table.Layout.{Entry, is_nil_value}
use vex_lua.Table.Keys.{values_equal, max_load}
use vex_lua.Table.Find.{Probe, find_entry}
use vex_lua.Table.Find.View.{find_entry-found, find_entry_congr, probe_of}
use vex_lua.Table.Find.Write.{hit}
use vex_lua.Table.Store.{HeapOps, Table, cells_of, find_in, probe_key}
use vex_lua.Table.Store.Grow.{rehash}
use vex_lua.Table.Store.Write.{
  check_key, entry_for, place, make_room, is_version_sensitive_key, set_in_hash,
}
use vex_lua.Table.Store.Invariant.{HeapLaws, HashGrown, ok-second}
use vex_lua.Table.Store.Hash.{find_in_regions, matches_self, matches_value, probe_key-key}
use vex_lua.Table.Store.Moved.{entry_part, lookup, IsOrdered}
use vex_lua.Table.Store.Regrown.{rehash_found}
use vex_lua.Table.Store.Place.{update_result, add_result}
use vex_lua.Table.Store.Kept.{remove_result}
use vex_lua.Table.Store.Others.{
  AreApart, Spares, Keeps, keys_apart, lookup-found, removed_cells, updated_cells, added_cells,
  without_entry-cells, with_value-cells, with_entry-cells,
}

module _ {H : Type 0} (ops : HeapOps H) (owner : ℕ) where
  module _ (h h' : H) (t t' : Table) (p q : Probe) (aux value : ℕ) (v : IsOrdered (cells_of t))
      (apart : AreApart p q) where
    place_found :
        (s : ℕ) (e : Entry) (gone : Bool)
        → find_entry (cells_of t) p ≡ ok (s, some e)
        → is_nil_value value ≡ gone
        → place ops owner h t p aux value (s, some e) ≡ ok (h', t')
        → Spares (cells_of t) (cells_of t') q
    unfolding place
    place_found s e true f gone eq =
        subst (λ c. Spares (cells_of t) c q)
          (sym (without_entry-cells t s)
            ∙ ap cells_of (remove_result ops owner h h' t t' s (ground (arith, gone, eq))))
          (removed_cells (cells_of t) v p q apart s e f)
    place_found s e false f full eq =
        let good = (find_entry-found (cells_of t) p s e v.0.sized.some_slot f).2 in
        subst (λ c. Spares (cells_of t) c q)
          (sym (
              with_value-cells t s e value
                (not (e.value == value) && is_version_sensitive_key ops owner p.key))
            ∙ ap cells_of
                (update_result ops owner h h' t t' s e p.key value (ground (arith, full, eq))))
          (updated_cells (cells_of t) v p q apart s e (record e { value = value })
            (matches_value e p value ∙ good) f)

    place_absent :
        (s : ℕ) (gone : Bool)
        → check_key p.key ≡ ok tt
        → find_entry (cells_of t) p ≡ ok (s, none)
        → is_nil_value value ≡ gone
        → place ops owner h t p aux value (s, none) ≡ ok (h', t')
        → Spares (cells_of t) (cells_of t') q
    unfolding place
    place_absent s true c f gone eq =
        subst (λ x. Spares (cells_of t) (cells_of x) q)
          (ok-second {a = h} {c = h'} {b = t} {d = t'} (ground (arith, gone, eq))) (v, refl)
    place_absent s false c f full eq =
        subst (λ x. Spares (cells_of t) x q)
          (sym (with_entry-cells t s (entry_for p aux value))
            ∙ ap cells_of (
                add_result ops owner h h' t t' s (entry_for p aux value)
                  (ground (arith, full, eq))))
          (added_cells (cells_of t) v p q apart s (entry_for p aux value)
            (matches_self p aux value c) f)

    pub place-Spares :
        (r : ℕ × Option Entry)
        → check_key p.key ≡ ok tt
        → find_entry (cells_of t) p ≡ ok r
        → place ops owner h t p aux value r ≡ ok (h', t')
        → Spares (cells_of t) (cells_of t') q
    place-Spares (s, some e) c f eq = place_found s e (is_nil_value value) f refl eq
    place-Spares (s, none) c f eq = place_absent s (is_nil_value value) c f refl eq

  pub set_in_hash-Spares :
      (h h' : H) (base t t' : Table) (key value : ℕ) (q : Probe)
      → HashGrown base t
      → IsOrdered (cells_of t)
      → check_key key ≡ ok tt
      → values_equal key q.key ≡ false
      → set_in_hash ops owner h t key value ≡ ok (h', t')
      → Spares (cells_of t) (cells_of t') q
  unfolding set_in_hash
  set_in_hash-Spares h h' base t t' key value q g v c different eq =
      let ((p, aux), k, rest) = >>=-eq-ok (probe_key ops t.object key) _ eq in
      let (r, f, last) = >>=-eq-ok (find_in t p) _ rest in
      let same = probe_key-key ops t.object key aux p k in
      let through = find_in_regions t p (λ z. omega (arith, z, g.0.some_slot)) (g.1) (g.2) in
      place-Spares h h' t t' p q aux value v
        (keys_apart p q (ap (λ x. values_equal x q.key) same ∙ different)) r (ap check_key same ∙ c)
        (sym through ∙ f) last

module _ {H : Type 0} (ops : HeapOps H) (laws : HeapLaws ops) (owner : ℕ) where
  rehash-Keeps :
      (h h' : H) (t t' : Table) (minimum : ℕ)
      → IsOrdered (cells_of t)
      → rehash ops owner h t minimum ≡ ok (h', t')
      → IsOrdered (cells_of t') × Keeps (cells_of t) (cells_of t')
  rehash-Keeps h h' t t' minimum v eq =
      let (ordered, found) = rehash_found ops laws owner h h' t t' minimum v.0 v.1 eq in
      (
        ordered,
        λ q e there full.
            let (s, f) = lookup-found (cells_of t) q e there in
            let (live, at, good) = find_entry-found (cells_of t) q s e v.0.sized.some_slot f in
            let here = found s live.0 (live.0, live.1, ap (λ x. is_nil_value x.value) at ∙ full) in
            ap (λ r. entry_part (hit r)) (sym (find_entry_congr (cells_of t') e q good))
            ∙ subst (λ x. lookup (cells_of t') (probe_of x) ≡ some x) at here,
      )

  pub make_room-Keeps :
      (h h' : H) (t t' : Table) (value : ℕ)
      → IsOrdered (cells_of t)
      → make_room ops owner h t value ≡ ok (h', t')
      → IsOrdered (cells_of t') × Keeps (cells_of t) (cells_of t')
  unfolding make_room
  make_room-Keeps h h' t t' value v eq =
      go
        (not (is_nil_value value)
          && ltb (max_load t.object.hash_capacity) ((t.object.hash_count + 1) % 2 ^ 32))
        eq
    where
      go :
          (b : Bool)
          → (if b then rehash ops owner h t (t.object.hash_capacity * 2 % 2 ^ 32) else ok (h, t))
            ≡ ok (h', t')
          → IsOrdered (cells_of t') × Keeps (cells_of t) (cells_of t')
      go true rest = rehash-Keeps h h' t t' (t.object.hash_capacity * 2 % 2 ^ 32) v rest
      go false rest =
          subst (λ x. IsOrdered (cells_of x) × Keeps (cells_of t) (cells_of x)) (ok-second rest)
            (v, λ q e there full. there)
