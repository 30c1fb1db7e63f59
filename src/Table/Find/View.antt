-- ===== src/Table/Find/View.antt =====
-- The hash part as a map from keys to entries: searches agree on keys that are equal, and each
-- write changes what is found for one key only.
use vex_lua.Base.{ℕ, zero, suc, ◌+◌, ◌<◌, ◌≡◌, refl, sym, ◌∙◌, true, Option, none, some, ok, arith}
use vex_lua.Base.Float.{float_eq}
use vex_lua.Table.Layout.{Entry}
use vex_lua.Table.Keys.{values_equal}
use vex_lua.Table.Find.{Probe, Cells, matches, first_deleted, probe_slot, probe_loop, find_entry}
use vex_lua.Table.Find.Search.{ctrl_at, entry_at, fingerprint-lt, found_lem}
use vex_lua.Table.Find.Update.{IsSized}

-- The key that an entry is for.
abbrev pub probe_of : Entry → Probe
probe_of e = record { key = e.key; full_hash = e.full_hash; key_class = e.key_class }

float_eq_congr : (x a b : ℕ) → float_eq a b ≡ true → float_eq x a ≡ float_eq x b
unfolding float_eq
float_eq_congr x a b h = ground arith

float_eq_symm : (a b : ℕ) → float_eq a b ≡ float_eq b a
unfolding float_eq
float_eq_symm a b = ground arith

pub values_equal_congr : (x a b : ℕ) → values_equal a b ≡ true → values_equal x a ≡ values_equal x b
unfolding values_equal
values_equal_congr x a b h = ground (arith, float_eq_congr x a b)

pub values_equal_symm : (a b : ℕ) → values_equal a b ≡ values_equal b a
unfolding values_equal
values_equal_symm a b = ground (arith, float_eq_symm a b)

pub matches_congr :
    (e x : Entry) (q : Probe) → matches e q ≡ true → matches x (probe_of e) ≡ matches x q
unfolding matches
matches_congr e x q h = ground (arith, values_equal_congr x.key e.key q.key)

pub matches-hash : (e : Entry) (q : Probe) → matches e q ≡ true → e.full_hash ≡ q.full_hash
unfolding matches
matches-hash e q h = ground arith

probe_slot_congr :
    (cells : Cells) (p q : Probe) (i : ℕ)
    → p.full_hash ≡ q.full_hash
    → probe_slot cells p i ≡ probe_slot cells q i
unfolding probe_slot
probe_slot_congr cells p q i h = rw h

search_step :
    (cells : Cells) (p q : Probe) (n i : ℕ) (d : Option ℕ)
    → p.full_hash ≡ q.full_hash
    → ((x : Entry) → matches x p ≡ matches x q)
    → ((y : Option ℕ) → probe_loop cells p n (i + 1) y ≡ probe_loop cells q n (i + 1) y)
    → probe_loop cells p (suc n) i d ≡ probe_loop cells q (suc n) i d
unfolding probe_loop
search_step cells p q n i d hash same ih =
    let slot = probe_slot cells q i in
    ground (
      arith,
      probe_slot_congr cells p q i hash,
      same (entry_at cells slot),
      ih d,
      ih (first_deleted d slot),
    )

-- Equal keys are searched alike.
search_congr :
    (cells : Cells) (e : Entry) (q : Probe)
    → matches e q ≡ true
    → (n i : ℕ) (d : Option ℕ) → probe_loop cells (probe_of e) n i d ≡ probe_loop cells q n i d
search_congr cells e q h zero i d = unfold probe_loop in refl
search_congr cells e q h (suc n) i d =
    search_step cells (probe_of e) q n i d (matches-hash e q h) (λ x. matches_congr e x q h)
      (search_congr cells e q h n (i + 1))

-- A slot with an entry, not vacant and not the sentinel.
abbrev pub IsLive : Cells → ℕ → Type 0
IsLive cells s = (s < cells.capacity) × (ctrl_at cells s < 128)

-- The hash part finds each of its entries where it stands.
pub record IsIndexed (cells : Cells) : Type 0 where
  pub sized : IsSized cells
  pub indexed :
      (s : ℕ)
      → IsLive cells s
      → find_entry cells (probe_of (entry_at cells s)) ≡ ok (s, some (entry_at cells s))

pub find_entry_congr :
    (cells : Cells) (e : Entry) (q : Probe)
    → matches e q ≡ true
    → find_entry cells (probe_of e) ≡ find_entry cells q
unfolding find_entry
find_entry_congr cells e q h = search_congr cells e q h cells.capacity 0 none

-- A search finds exactly the live entry that its key matches.
pub find_entry-live :
    (cells : Cells) (q : Probe) (s : ℕ)
    → IsIndexed cells
    → IsLive cells s
    → matches (entry_at cells s) q ≡ true
    → find_entry cells q ≡ ok (s, some (entry_at cells s))
find_entry-live cells q s v live hit =
    sym (find_entry_congr cells (entry_at cells s) q hit) ∙ v.indexed s live

pub find_entry-found :
    (cells : Cells) (q : Probe) (s : ℕ) (e : Entry)
    → 0 < cells.capacity
    → find_entry cells q ≡ ok (s, some e)
    → IsLive cells s × (entry_at cells s ≡ e) × (matches e q ≡ true)
unfolding find_entry
find_entry-found cells q s e c h =
    let (below, fp, at, hit) = found_lem cells q cells.capacity 0 none s e c h in
    let f = fingerprint-lt q.full_hash in ((below, omega arith), at, hit)

pub matches_symm : (e x : Entry) → matches e (probe_of x) ≡ matches x (probe_of e)
unfolding matches
matches_symm e x = ground (arith, values_equal_symm e.key x.key)
