-- ===== src/Table/Find/Effect.antt =====
-- What a write to one cell does to the searches, for any control byte and entry.
use vex_lua.Base.{
  ℕ, ◌<◌, ◌≡◌, ◌≢◌, sym, ◌∙◌, subst, true, false, none, some, ok, arith, ◌⊎◌, inr, ℕ_discrete,
}
use vex_lua.Table.Layout.{Entry, ctrl_empty, ctrl_deleted}
use vex_lua.Table.Keys.{ctrl_fingerprint}
use vex_lua.Table.Find.{Probe, Cells, matches, find_entry}
use vex_lua.Table.Find.Search.{IsVacant, ctrl_at, entry_at, fingerprint-lt, vacant_lem}
use vex_lua.Table.Find.Update.{write_cell, IsSized, ctrl_self, entry_self, ctrl_other, entry_other}
use vex_lua.Table.Find.View.{
  probe_of, IsLive, IsIndexed, find_entry-live, find_entry-found, find_entry_congr, matches_symm,
  matches_congr,
}
use vex_lua.Table.Find.Write.{hit, new-IsSized, keep_lem, apart_lem}

-- Entries for one key match the same keys.
pub same_key :
    (e x : Entry) (p q : Probe)
    → matches e p ≡ true
    → matches x p ≡ true
    → matches e q ≡ matches x q
same_key e x p q a b =
    ground
      (arith, matches_congr e x q, matches_congr e x p, matches_congr x e q, matches_congr x e p)

pub absent-IsVacant :
    (cells : Cells) (p : Probe) (z : ℕ)
    → IsSized cells
    → find_entry cells p ≡ ok (z, none)
    → (z < cells.capacity) × IsVacant (ctrl_at cells z)
unfolding find_entry
absent-IsVacant cells p z sized h = vacant_lem cells p cells.capacity 0 z sized.some_slot h

-- A vacant slot is where no search ends.
pub vacant_apart :
    (cells : Cells) (q : Probe) (z : ℕ) (x : Entry)
    → IsSized cells
    → IsVacant (ctrl_at cells z)
    → ¬ (find_entry cells q ≡ ok (z, some x))
vacant_apart cells q z x sized vacant h =
    let (live, at, good) = find_entry-found cells q z x sized.some_slot h in omega (arith, live.1)

pub passes_lem :
    (cells : Cells) (p : Probe) (e : Entry) (z s : ℕ)
    → IsIndexed cells
    → matches e p ≡ true
    → IsLive cells s
    → ((x : Entry) → ¬ (find_entry cells p ≡ ok (s, some x)))
    → matches e (probe_of (entry_at cells s)) ≡ false
passes_lem cells p e z s v good live alone =
    let x = entry_at cells s in
    ground
      (arith, matches_congr e x p good, matches_symm e x, alone x, find_entry-live cells p s v live)

module _ (cells : Cells) (z c : ℕ) (e : Entry) (v : IsIndexed cells)
    (below : z < cells.capacity) where
  abbrev written : Cells
  written = write_cell cells z c e

  pub live_lem : (s : ℕ) → z ≢ s → IsLive written s → IsLive cells s
  live_lem s ne live =
      (live.0, subst (λ y. y < 128) (ctrl_other cells z c e v.sized below s ne) live.1)

  -- The written cells are indexed, if the new entry is found and the search for every other one
  -- passes the new cell.
  pub indexed_lem :
      c ≢ ctrl_empty
      → (c < 128 → find_entry written (probe_of e) ≡ ok (z, some e))
      → ((s : ℕ)
          → IsLive cells s
          → z ≢ s
          → (c ≡ ctrl_deleted) ⊎ (matches e (probe_of (entry_at cells s)) ≡ false))
      → IsIndexed written
  indexed_lem full self pass = record {
    sized = new-IsSized cells z c e v below;
    indexed = λ s live. elim (ℕ_discrete z s) [
      | yes same ↦
          subst
            (λ y.
              find_entry written (probe_of (entry_at written y))
              ≡ ok (y, some (entry_at written y)))
            same
            (subst (λ y. find_entry written (probe_of y) ≡ ok (z, some y))
              (sym (entry_self cells z c e v.sized below))
              (self (
                subst (λ y. y < 128) (ctrl_self cells z c e v.sized below)
                  (subst (λ y. ctrl_at written y < 128) (sym same) live.1))))
      | no ne ↦
          subst (λ y. find_entry written (probe_of y) ≡ ok (s, some y))
            (sym (entry_other cells z c e v.sized below s ne))
            (keep_lem cells z c e v below (probe_of (entry_at cells s)) s (entry_at cells s) full
              (pass s (live_lem s ne live) ne) ne (v.indexed s (live_lem s ne live)))
    ];
  }

  -- What an entry of a full cell does to the searches.
  pub filled_lem :
      (p q : Probe)
      → matches e p ≡ true
      → matches e q ≡ false
      → c ≡ ctrl_fingerprint p.full_hash
      → ((s : ℕ) (x : Entry) → z ≢ s → ¬ (find_entry cells p ≡ ok (s, some x)))
      → ((x : Entry) → ¬ (find_entry cells q ≡ ok (z, some x)))
      → find_entry written p ≡ ok (z, some e)
      → IsIndexed written
        × (find_entry written p ≡ ok (z, some e))
        × (hit (find_entry written q) ≡ hit (find_entry cells q))
  filled_lem p q good bad fp alone before found =
      let full : c ≢ ctrl_empty = λ h. omega (arith, fingerprint-lt p.full_hash) in
      (
        indexed_lem full (λ _. find_entry_congr written e p good ∙ found)
            (λ s live ne. inr (passes_lem cells p e z s v good live (λ x. alone s x ne))),
        found,
        apart_lem cells z c e v below q full (inr bad) before (λ x h.
            let (live, at, hits) = find_entry-found written q z x v.sized.some_slot h in
            let same : e ≡ x = sym (entry_self cells z c e v.sized below) ∙ at in
            ground (arith, same)),
      )
