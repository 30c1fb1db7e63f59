-- ===== src/Table/Find/Search.antt =====
-- What a search returns.
use vex_lua.Base.{
  ℕ, zero, suc, ◌+◌, ◌-◌, ◌%◌, ◌^◌, ◌<◌, ◌≡◌, true, Option, none, some, get_or, ok, arith, ◌⊎◌,
  bit_and, ◌/◌,
}
use vex_lua.Base.Bits.{bit_and_mask}
use vex_lua.Base.Bits.Masks.{bit_and-le_right}
use vex_lua.Table.Layout.{Entry, empty_entry, ctrl_empty, ctrl_deleted}
use vex_lua.Table.Keys.{ctrl_fingerprint}
use vex_lua.Table.Find.{Probe, Cells, matches, probe_slot, probe_loop}

-- A control byte that says "no entry here".
abbrev pub IsVacant : ℕ → Type 0
IsVacant c = (c ≡ ctrl_empty) ⊎ (c ≡ ctrl_deleted)

abbrev pub ctrl_at : Cells → ℕ → ℕ
ctrl_at cells s = get_or cells.ctrl s 0

abbrev pub entry_at : Cells → ℕ → Entry
entry_at cells s = get_or cells.entries s empty_entry

pub fingerprint-lt : (h : ℕ) → ctrl_fingerprint h < 128
unfolding ctrl_fingerprint
fingerprint-lt h = omega (arith, bit_and_mask 7 (h / 2 ^ 25))

pub probe_slot-lt :
    (cells : Cells) (p : Probe) (i : ℕ) → 0 < cells.capacity → probe_slot cells p i < cells.capacity
unfolding probe_slot
probe_slot-lt cells p i h = omega (
  arith,
  bit_and-le_right ((bit_and p.full_hash (cells.capacity - 1) + i) % 2 ^ 32) (cells.capacity - 1),
)

module _ (cells : Cells) (p : Probe) where
  -- What a search that finds an entry has found.
  pub found_lem :
      (n i : ℕ) (d : Option ℕ) (s : ℕ) (e : Entry)
      → 0 < cells.capacity
      → probe_loop cells p n i d ≡ ok (s, some e)
      → (s < cells.capacity)
        × (ctrl_at cells s ≡ ctrl_fingerprint p.full_hash)
        × (entry_at cells s ≡ e)
        × (matches e p ≡ true)
  unfolding probe_loop
  found_lem zero i none s e c h = cc
  found_lem zero i (some x) s e c h = cc
  found_lem (suc n) i none s e c h = ground (
    arith,
    probe_slot-lt cells p i,
    found_lem n (i + 1) none s e c,
    found_lem n (i + 1) (some (probe_slot cells p i)) s e c,
  )
  found_lem (suc n) i (some x) s e c h =
      ground (arith, probe_slot-lt cells p i, found_lem n (i + 1) (some x) s e c)

  -- A search that has met a deleted slot and finds nothing returns that slot.
  pub reuse_lem : (n i x z : ℕ) → probe_loop cells p n i (some x) ≡ ok (z, none) → z ≡ x
  unfolding probe_loop
  reuse_lem zero i x z h = ground arith
  reuse_lem (suc n) i x z h = ground (arith, reuse_lem n (i + 1) x z)

  -- A search that finds nothing returns a vacant slot.
  pub vacant_lem :
      (n i z : ℕ)
      → 0 < cells.capacity
      → probe_loop cells p n i none ≡ ok (z, none)
      → (z < cells.capacity) × IsVacant (ctrl_at cells z)
  unfolding probe_loop
  vacant_lem zero i z c h = cc
  vacant_lem (suc n) i z c h = ground (
    arith,
    probe_slot-lt cells p i,
    reuse_lem n (i + 1) (probe_slot cells p i) z,
    vacant_lem n (i + 1) z c,
  )
