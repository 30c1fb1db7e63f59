-- ===== src/Table/Find/Laws.antt =====
-- The three writes of `setHashValue`: a new key, a new value for a key, and the removal of a key.
use vex_lua.Base.{
  ℕ, ◌<◌, ◌≡◌, ◌≢◌, refl, sym, ◌∙◌, subst, true, false, Option, none, some, Result, ok, arith, inl,
  ℕ_discrete,
}
use vex_lua.Table.Layout.{Entry, empty_entry, ctrl_empty, ctrl_deleted}
use vex_lua.Table.Keys.{ctrl_fingerprint}
use vex_lua.Table.Find.{Error, Probe, Cells, matches, find_entry}
use vex_lua.Table.Find.Search.{found_lem, ctrl_at}
use vex_lua.Table.Find.Update.{write_cell, IsSized, inserted_lem, overwritten_lem, ctrl_self}
use vex_lua.Table.Find.View.{IsIndexed, find_entry-found}
use vex_lua.Table.Find.Write.{hit, hit-none, back_lem, apart_lem}
use vex_lua.Table.Find.Effect.{indexed_lem, filled_lem, absent-IsVacant, vacant_apart, same_key}

one_result :
    {r : Result Error (ℕ × Option Entry)} (s t : ℕ) {x y : Option Entry}
    → r ≡ ok (s, x)
    → r ≡ ok (t, y)
    → s ≡ t
one_result s t a b = cc

deleted_apart :
    (cells : Cells) (q : Probe) (z : ℕ) (x : Entry)
    → IsSized cells
    → z < cells.capacity
    → ¬ (find_entry (write_cell cells z ctrl_deleted empty_entry) q ≡ ok (z, some x))
deleted_apart cells q z x sized below h =
    let (live, at, good) =
      find_entry-found (write_cell cells z ctrl_deleted empty_entry) q z x sized.some_slot h in
    let self = ctrl_self cells z ctrl_deleted empty_entry sized below in omega (arith, self, live.1)

-- In an indexed hash part, writing an entry for a key at the slot that a search without a hit
-- returned makes the key found there with that entry, keeps the hash part indexed, and leaves the
-- result of the search for every key that the entry is not for.
pub find_entry-write_cell_new :
    (cells : Cells) (p q : Probe) (z : ℕ) (e : Entry)
    → IsIndexed cells
    → find_entry cells p ≡ ok (z, none)
    → matches e p ≡ true
    → matches e q ≡ false
    → IsIndexed (write_cell cells z (ctrl_fingerprint p.full_hash) e)
      × (find_entry (write_cell cells z (ctrl_fingerprint p.full_hash) e) p ≡ ok (z, some e))
      × (hit (find_entry (write_cell cells z (ctrl_fingerprint p.full_hash) e) q)
          ≡ hit (find_entry cells q))
unfolding find_entry
find_entry-write_cell_new cells p q z e v absent good bad =
    let (below, vacant) = absent-IsVacant cells p z v.sized absent in
    filled_lem cells z (ctrl_fingerprint p.full_hash) e v below p q good bad refl
      (λ s x ne h. ground (arith, absent, h)) (λ x. vacant_apart cells q z x v.sized vacant)
      (inserted_lem cells z (ctrl_fingerprint p.full_hash) e v.sized below p refl good
        cells.capacity 0 absent)

-- In an indexed hash part, overwriting the entry that a search found with another one for the
-- same key makes the key found in the same slot with the new entry, keeps the hash part indexed,
-- and leaves the result of the search for every other key.
pub find_entry-write_cell_again :
    (cells : Cells) (p q : Probe) (z : ℕ) (old e : Entry)
    → IsIndexed cells
    → find_entry cells p ≡ ok (z, some old)
    → matches e p ≡ true
    → matches e q ≡ false
    → IsIndexed (write_cell cells z (ctrl_at cells z) e)
      × (find_entry (write_cell cells z (ctrl_at cells z) e) p ≡ ok (z, some e))
      × (hit (find_entry (write_cell cells z (ctrl_at cells z) e) q) ≡ hit (find_entry cells q))
unfolding find_entry
find_entry-write_cell_again cells p q z old e v present good bad =
    let (below, fp, at, hits) =
      found_lem cells p cells.capacity 0 none z old v.sized.some_slot present in
    filled_lem cells z (ctrl_at cells z) e v below p q good bad fp
      (λ s x ne h. ne (one_result z s present h))
      (λ x h.
        let (live, here, hits') = find_entry-found cells q z x v.sized.some_slot h in
        let same : old ≡ x = sym at ∙ here in ground (arith, same, same_key e old p q))
      (overwritten_lem cells z (ctrl_at cells z) e v.sized below p fp good cells.capacity 0 none
        none old present)

-- In an indexed hash part, marking the slot of a found key as deleted and emptying its entry
-- makes the key found nowhere, keeps the hash part indexed, and leaves the result of the search
-- for every key that the removed entry was not for.
pub find_entry-write_cell_deleted :
    (cells : Cells) (p q : Probe) (z : ℕ) (old : Entry)
    → IsIndexed cells
    → find_entry cells p ≡ ok (z, some old)
    → matches old q ≡ false
    → IsIndexed (write_cell cells z ctrl_deleted empty_entry)
      × (hit (find_entry (write_cell cells z ctrl_deleted empty_entry) p) ≡ none)
      × (hit (find_entry (write_cell cells z ctrl_deleted empty_entry) q)
          ≡ hit (find_entry cells q))
find_entry-write_cell_deleted cells p q z old v present bad =
    let (live, at, hits) = find_entry-found cells p z old v.sized.some_slot present in
    let full : ctrl_deleted ≢ ctrl_empty = λ h. omega (arith, h) in
    (
      indexed_lem cells z ctrl_deleted empty_entry v live.0 full (λ h. absurd (omega (arith, h)))
          (λ s l ne. inl refl),
      hit-none (find_entry (write_cell cells z ctrl_deleted empty_entry) p) (λ s x h.
          elim (ℕ_discrete z s) [
            | yes same ↦ deleted_apart cells p z x v.sized live.0 (
                subst
                  (λ y. find_entry (write_cell cells z ctrl_deleted empty_entry) p ≡ ok (y, some x))
                  (sym same) h)
            | no ne ↦ ne (
                one_result z s present
                  (back_lem cells z ctrl_deleted empty_entry v live.0 p s x ne h))
          ]),
      apart_lem cells z ctrl_deleted empty_entry v live.0 q full (inl refl)
          (λ x h.
            let (live', here, hits') = find_entry-found cells q z x v.sized.some_slot h in
            let same : old ≡ x = sym at ∙ here in ground (arith, same))
          (λ x h. deleted_apart cells q z x v.sized live.0 h),
    )
