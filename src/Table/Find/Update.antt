-- ===== src/Table/Find/Update.antt =====
-- Searches after one cell was written.
use vex_lua.Base.{
  ℕ, zero, suc, ◌+◌, ◌<◌, ◌≡◌, ◌≢◌, refl, true, false, Option, none, some, set, length, ok, arith,
  ◌⊎◌, get_or-set_self, get_or-set_ne,
}
use vex_lua.Table.Layout.{Entry, empty_entry, ctrl_empty, ctrl_deleted}
use vex_lua.Table.Keys.{ctrl_fingerprint}
use vex_lua.Table.Find.{Probe, Cells, matches, first_deleted, probe_slot, probe_loop}
use vex_lua.Table.Find.Search.{ctrl_at, entry_at, fingerprint-lt, reuse_lem, vacant_lem}

-- `ctrl[z] = c` and `writeEntryAt(entries, z, e)`
abbrev pub write_cell : Cells → ℕ → ℕ → Entry → Cells
write_cell cells z c e = record cells { ctrl = set cells.ctrl z c; entries = set cells.entries z e }

-- There is a control byte and an entry for each slot, and one byte more for the sentinel.
pub record IsSized (cells : Cells) : Type 0 where
  pub some_slot : 0 < cells.capacity
  pub ctrl_length : length cells.ctrl ≡ cells.capacity + 1
  pub entries_length : length cells.entries ≡ cells.capacity

-- With no round left nothing is found.
no_hit :
    (cells : Cells) (p : Probe) (i : ℕ) (d : Option ℕ) (s : ℕ) (e : Entry)
    → ¬ (probe_loop cells p zero i d ≡ ok (s, some e))
unfolding probe_loop
no_hit cells p i none s e h = cc
no_hit cells p i (some x) s e h = cc

module _ (cells : Cells) (z c : ℕ) (e : Entry) (sized : IsSized cells)
    (below : z < cells.capacity) where
  pub ctrl_self : ctrl_at (write_cell cells z c e) z ≡ c
  ctrl_self = get_or-set_self cells.ctrl z c 0 (omega arith)

  pub entry_self : entry_at (write_cell cells z c e) z ≡ e
  entry_self = get_or-set_self cells.entries z e empty_entry (omega arith)

  pub ctrl_other : (s : ℕ) → z ≢ s → ctrl_at (write_cell cells z c e) s ≡ ctrl_at cells s
  ctrl_other s h = get_or-set_ne cells.ctrl z s c 0 h

  pub entry_other : (s : ℕ) → z ≢ s → entry_at (write_cell cells z c e) s ≡ entry_at cells s
  entry_other s h = get_or-set_ne cells.entries z s e empty_entry h

  same_slot : (p : Probe) (i : ℕ) → probe_slot (write_cell cells z c e) p i ≡ probe_slot cells p i
  unfolding probe_slot
  same_slot p i = refl

  -- An entry written where a search ended without a hit is found there.
  pub inserted_lem :
      (p : Probe)
      → c ≡ ctrl_fingerprint p.full_hash
      → matches e p ≡ true
      → (n i : ℕ) → probe_loop cells p n i none ≡ ok (z, none)
      → probe_loop (write_cell cells z c e) p n i none ≡ ok (z, some e)
  unfolding probe_loop
  inserted_lem p fp hit zero i h = cc
  inserted_lem p fp hit (suc n) i h = ground (
    arith,
    fingerprint-lt p.full_hash,
    same_slot p i,
    ctrl_self,
    entry_self,
    ctrl_other (probe_slot cells p i),
    entry_other (probe_slot cells p i),
    reuse_lem cells p n (i + 1) (probe_slot cells p i) z,
    vacant_lem cells p n (i + 1) z sized.some_slot,
    inserted_lem p fp hit n (i + 1),
  )

  overwritten_step :
      (p : Probe)
      → c ≡ ctrl_fingerprint p.full_hash
      → matches e p ≡ true
      → (n i : ℕ) (d d' : Option ℕ) (old : Entry)
      → ((x y : Option ℕ)
          → probe_loop cells p n (i + 1) x ≡ ok (z, some old)
          → probe_loop (write_cell cells z c e) p n (i + 1) y ≡ ok (z, some e))
      → probe_loop cells p (suc n) i d ≡ ok (z, some old)
      → probe_loop (write_cell cells z c e) p (suc n) i d' ≡ ok (z, some e)
  unfolding probe_loop
  overwritten_step p fp hit n i d d' old ih h =
      let slot = probe_slot cells p i in
      ground (
        arith,
        fingerprint-lt p.full_hash,
        same_slot p i,
        ctrl_self,
        entry_self,
        ctrl_other slot,
        entry_other slot,
        ih d d',
        ih d (first_deleted d' slot),
        ih (first_deleted d slot) d',
        ih (first_deleted d slot) (first_deleted d' slot),
      )

  -- An entry that is overwritten by one for the same key is found in its place.
  pub overwritten_lem :
      (p : Probe)
      → c ≡ ctrl_fingerprint p.full_hash
      → matches e p ≡ true
      → (n i : ℕ) (d d' : Option ℕ) (old : Entry) → probe_loop cells p n i d ≡ ok (z, some old)
      → probe_loop (write_cell cells z c e) p n i d' ≡ ok (z, some e)
  overwritten_lem p fp hit zero i d d' old h = absurd (no_hit cells p i d z old h)
  overwritten_lem p fp hit (suc n) i d d' old h =
      overwritten_step p fp hit n i d d' old (λ x y. overwritten_lem p fp hit n (i + 1) x y old) h

  elsewhere_step :
      (q : Probe)
      → c ≢ ctrl_empty
      → (c ≡ ctrl_deleted) ⊎ (matches e q ≡ false)
      → (n i : ℕ) (d d' : Option ℕ) (s : ℕ) (found : Entry) → z ≢ s
      → ((x y : Option ℕ)
          → probe_loop cells q n (i + 1) x ≡ ok (s, some found)
          → probe_loop (write_cell cells z c e) q n (i + 1) y ≡ ok (s, some found))
      → probe_loop cells q (suc n) i d ≡ ok (s, some found)
      → probe_loop (write_cell cells z c e) q (suc n) i d' ≡ ok (s, some found)
  unfolding probe_loop
  elsewhere_step q full pass n i d d' s found ne ih h =
      let slot = probe_slot cells q i in
      ground (
        arith,
        fingerprint-lt q.full_hash,
        same_slot q i,
        ctrl_self,
        entry_self,
        ctrl_other slot,
        entry_other slot,
        ih d d',
        ih d (first_deleted d' slot),
        ih (first_deleted d slot) d',
        ih (first_deleted d slot) (first_deleted d' slot),
      )

  -- A search for another key that found its entry elsewhere still finds it, if the new cell is
  -- one that it passes: deleted, or an entry for another key.
  pub elsewhere_lem :
      (q : Probe)
      → c ≢ ctrl_empty
      → (c ≡ ctrl_deleted) ⊎ (matches e q ≡ false)
      → (n i : ℕ) (d d' : Option ℕ) (s : ℕ) (found : Entry) → z ≢ s
      → probe_loop cells q n i d ≡ ok (s, some found)
      → probe_loop (write_cell cells z c e) q n i d' ≡ ok (s, some found)
  elsewhere_lem q full pass zero i d d' s found ne h = absurd (no_hit cells q i d s found h)
  elsewhere_lem q full pass (suc n) i d d' s found ne h =
      elsewhere_step q full pass n i d d' s found ne
        (λ x y. elsewhere_lem q full pass n (i + 1) x y s found ne) h
