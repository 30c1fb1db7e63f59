-- ===== src/Table/Store/Others.antt =====
-- What a write in the hash part does to the other keys.
use vex_lua.Base.{
  ℕ, ◌+◌, ◌-◌, ◌%◌, ◌^◌, ◌≡◌, refl, ap, sym, ◌∙◌, Bool, true, false, Option, none, some, set, ◌==◌,
  if◌then◌else◌, Result, ok, err, arith, inl, inr,
}
use vex_lua.Table.Layout.{Entry, empty_entry, ctrl_deleted, is_nil_value}
use vex_lua.Table.Keys.{values_equal, ctrl_fingerprint}
use vex_lua.Table.Find.{Error, Probe, Cells, matches, find_entry}
use vex_lua.Table.Find.Search.{ctrl_at, fingerprint-lt}
use vex_lua.Table.Find.Update.{write_cell}
use vex_lua.Table.Find.View.{find_entry-found, values_equal_congr, values_equal_symm}
use vex_lua.Table.Find.Effect.{absent-IsVacant}
use vex_lua.Table.Find.Write.{hit}
use vex_lua.Table.Find.Laws.{
  find_entry-write_cell_new, find_entry-write_cell_again, find_entry-write_cell_deleted,
}
use vex_lua.Table.Store.{Table, cells_of}
use vex_lua.Table.Store.Write.{without_entry, with_value, with_entry}
use vex_lua.Table.Store.Invariant.{bump_if_same}
use vex_lua.Table.Store.Hash.{count_same, set-get_or}
use vex_lua.Table.Store.Moved.{entry_part, lookup, IsOrdered, write-HasControls}

-- No entry is for both keys.
abbrev pub AreApart : Probe → Probe → Type 0
AreApart p q = (e : Entry) → matches e p ≡ true → matches e q ≡ false

pub keys_apart : (p q : Probe) → values_equal p.key q.key ≡ false → AreApart p q
unfolding matches
keys_apart p q different e good = ground (
  arith,
  different,
  good,
  values_equal_congr q.key e.key p.key,
  values_equal_symm q.key e.key,
  values_equal_symm q.key p.key,
)

-- A key with another hash.
abbrev pub apart_probe : Probe → Probe
apart_probe p = record p { full_hash = p.full_hash + 1 }

pub apart_probe_lem : (p : Probe) → AreApart p (apart_probe p)
unfolding matches
apart_probe_lem p e good = ground (arith, good)

entry_part-hit :
    (r : Result Error (ℕ × Option Entry)) (e : Entry)
    → entry_part (hit r) ≡ some e
    → (s : ℕ) × (r ≡ ok (s, some e))
entry_part-hit (ok (s, some x)) e h = (s, cc)
entry_part-hit (ok (s, none)) e h = cc
entry_part-hit (err d) e h = cc

pub lookup-found :
    (cells : Cells) (q : Probe) (e : Entry)
    → lookup cells q ≡ some e
    → (s : ℕ) × (find_entry cells q ≡ ok (s, some e))
lookup-found cells q e h = entry_part-hit (find_entry cells q) e h

-- The entries that are found, but those with nil, are found again.
abbrev pub Keeps : Cells → Cells → Type 0
Keeps a b =
    (q : Probe) (e : Entry)
    → lookup a q ≡ some e
    → is_nil_value e.value ≡ false
    → lookup b q ≡ some e

-- The cells are in order, and a search for another key finds what it found.
abbrev pub Spares : Cells → Cells → Probe → Type 0
Spares a b q = IsOrdered b × (lookup b q ≡ lookup a q)

module _ (cells : Cells) (v : IsOrdered cells) (p q : Probe) (apart : AreApart p q) where
  pub removed_cells :
      (s : ℕ) (e : Entry)
      → find_entry cells p ≡ ok (s, some e)
      → Spares cells (write_cell cells s ctrl_deleted empty_entry) q
  removed_cells s e f =
      let (live, at, good) = find_entry-found cells p s e v.0.sized.some_slot f in
      let (indexed, gone, same) =
        find_entry-write_cell_deleted cells p q s e v.0 f (apart e good) in
      (
        (
          indexed,
          write-HasControls cells s ctrl_deleted empty_entry v.0.sized live.0 (inr (inr refl)) v.1,
        ),
        ap entry_part same,
      )

  pub updated_cells :
      (s : ℕ) (old e : Entry)
      → matches e p ≡ true
      → find_entry cells p ≡ ok (s, some old)
      → Spares cells (write_cell cells s (ctrl_at cells s) e) q
  updated_cells s old e good f =
      let (live, at, good') = find_entry-found cells p s old v.0.sized.some_slot f in
      let (indexed, found, same) =
        find_entry-write_cell_again cells p q s old e v.0 f good (apart e good) in
      (
        (indexed, write-HasControls cells s (ctrl_at cells s) e v.0.sized live.0 (inl live.1) v.1),
        ap entry_part same,
      )

  pub added_cells :
      (s : ℕ) (e : Entry)
      → matches e p ≡ true
      → find_entry cells p ≡ ok (s, none)
      → Spares cells (write_cell cells s (ctrl_fingerprint p.full_hash) e) q
  added_cells s e good f =
      let (below, vacant) = absent-IsVacant cells p s v.0.sized f in
      let (indexed, found, same) =
        find_entry-write_cell_new cells p q s e v.0 f good (apart e good) in
      (
        (
          indexed,
          write-HasControls cells s (ctrl_fingerprint p.full_hash) e v.0.sized below
              (inl (fingerprint-lt p.full_hash)) v.1,
        ),
        ap entry_part same,
      )

pub without_entry-cells :
    (t : Table) (s : ℕ)
    → cells_of (without_entry t s) ≡ write_cell (cells_of t) s ctrl_deleted empty_entry
unfolding without_entry
without_entry-cells t s =
    ap (λ n. record (write_cell (cells_of t) s ctrl_deleted empty_entry) { capacity = n })
      (count_same t.object (if t.object.hash_count == 0 then 0 else t.object.hash_count - 1)).1.0

pub with_value-cells :
    (t : Table) (s : ℕ) (e : Entry) (value : ℕ) (bump : Bool)
    → cells_of (with_value t s e value bump)
      ≡ write_cell (cells_of t) s (ctrl_at (cells_of t) s) (record e { value = value })
unfolding with_value
with_value-cells t s e value bump =
    ap
      (λ n. record (cells_of t) {
        entries = set t.entries s (record e { value = value });
        capacity = n;
      })
      (bump_if_same bump t.object).1.0
    ∙ ap
        (λ c. record (cells_of t) {
          ctrl = c;
          entries = set t.entries s (record e { value = value });
        })
        (sym (set-get_or t.ctrl s 0))

pub with_entry-cells :
    (t : Table) (s : ℕ) (e : Entry)
    → cells_of (with_entry t s e) ≡ write_cell (cells_of t) s (ctrl_fingerprint e.full_hash) e
unfolding with_entry
with_entry-cells t s e =
    ap (λ n. record (write_cell (cells_of t) s (ctrl_fingerprint e.full_hash) e) { capacity = n })
      (count_same t.object ((t.object.hash_count + 1) % 2 ^ 32)).1.0
