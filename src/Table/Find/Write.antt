-- ===== src/Table/Find/Write.antt =====
-- What one written cell leaves as it was: searches that neither end at it nor stop there.
use vex_lua.Base.{
  ℕ, ◌<◌, ◌≡◌, ◌≢◌, refl, ap, sym, ◌∙◌, subst, false, Option, none, some, Result, ok, err, ◌⊎◌,
  length-set,
}
use vex_lua.Table.Layout.{Entry, ctrl_empty, ctrl_deleted}
use vex_lua.Table.Find.{Error, Probe, Cells, matches, find_entry}
use vex_lua.Table.Find.Search.{entry_at}
use vex_lua.Table.Find.Update.{write_cell, IsSized, elsewhere_lem, ctrl_other, entry_other}
use vex_lua.Table.Find.View.{IsIndexed, find_entry-live, find_entry-found}

-- What a search finds, and where.
abbrev pub hit : Result Error (ℕ × Option Entry) → Option (ℕ × Entry)
hit (ok (s, some x)) = some (s, x)
hit (ok (s, none)) = none
hit (err e) = none

abbrev FoundIn : Result Error (ℕ × Option Entry) → Result Error (ℕ × Option Entry) → Type 0
FoundIn a b = (s : ℕ) (x : Entry) → a ≡ ok (s, some x) → b ≡ ok (s, some x)

hit-eq : (a b : Result Error (ℕ × Option Entry)) → FoundIn a b → FoundIn b a → hit a ≡ hit b
hit-eq (ok (s, some x)) b f g = sym (ap hit (f s x refl))
hit-eq (ok (s, none)) (ok (t, some y)) f g = ap hit (g t y refl)
hit-eq (ok (s, none)) (ok (t, none)) f g = refl
hit-eq (ok (s, none)) (err d) f g = refl
hit-eq (err e) (ok (t, some y)) f g = ap hit (g t y refl)
hit-eq (err e) (ok (t, none)) f g = refl
hit-eq (err e) (err d) f g = refl

pub hit-none :
    (a : Result Error (ℕ × Option Entry))
    → ((s : ℕ) (x : Entry) → ¬ (a ≡ ok (s, some x)))
    → hit a ≡ none
hit-none (ok (s, some x)) f = absurd (f s x refl)
hit-none (ok (s, none)) f = refl
hit-none (err e) f = refl

module _ (cells : Cells) (z c : ℕ) (e : Entry) (v : IsIndexed cells)
    (below : z < cells.capacity) where
  abbrev new : Cells
  new = write_cell cells z c e

  pub new-IsSized : IsSized new
  new-IsSized = record {
    some_slot = v.sized.some_slot;
    ctrl_length = length-set cells.ctrl z c ∙ v.sized.ctrl_length;
    entries_length = length-set cells.entries z e ∙ v.sized.entries_length;
  }

  -- What is found away from the written cell was found before.
  pub back_lem :
      (q : Probe) (s : ℕ) (x : Entry)
      → z ≢ s
      → find_entry new q ≡ ok (s, some x)
      → find_entry cells q ≡ ok (s, some x)
  back_lem q s x ne h =
      let (live, at, hit) = find_entry-found new q s x v.sized.some_slot h in
      let same = entry_other cells z c e v.sized below s ne in
      let there : entry_at cells s ≡ x = sym same ∙ at in
      rw
        (find_entry-live cells q s v
          (live.0, rw (ctrl_other cells z c e v.sized below s ne) at live.1) (rw there hit))
        (ap (λ y. ok (s, some y)) there)

  pub keep_lem :
      (q : Probe) (s : ℕ) (x : Entry)
      → c ≢ ctrl_empty
      → (c ≡ ctrl_deleted) ⊎ (matches e q ≡ false)
      → z ≢ s
      → find_entry cells q ≡ ok (s, some x)
      → find_entry new q ≡ ok (s, some x)
  unfolding find_entry
  keep_lem q s x full pass ne h =
      elsewhere_lem cells z c e v.sized below q full pass cells.capacity 0 none none s x ne h

  -- A key that is not found at the written cell, before and after, is found as before.
  pub apart_lem :
      (q : Probe)
      → c ≢ ctrl_empty
      → (c ≡ ctrl_deleted) ⊎ (matches e q ≡ false)
      → ((x : Entry) → ¬ (find_entry cells q ≡ ok (z, some x)))
      → ((x : Entry) → ¬ (find_entry new q ≡ ok (z, some x)))
      → hit (find_entry new q) ≡ hit (find_entry cells q)
  apart_lem q full pass before after =
      hit-eq (find_entry new q) (find_entry cells q)
        (λ s x h.
          back_lem q s x
            (λ same. after x (subst (λ y. find_entry new q ≡ ok (y, some x)) (sym same) h)) h)
        (λ s x h.
          keep_lem q s x full pass
            (λ same. before x (subst (λ y. find_entry cells q ≡ ok (y, some x)) (sym same) h)) h)
