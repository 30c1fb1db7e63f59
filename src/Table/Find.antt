-- ===== src/Table/Find.antt =====
-- internal/runtime/table/store.go: `findEntry`, the probe of the hash part.
-- The control bytes and the entries that `hashRegions` resolves are lists; the slot that a Go
-- `int32` holds is below 2 ^ 31, as no heap has room for more entries.
pub mod Search
pub mod Update
pub mod View
pub mod Write
pub mod Effect
pub mod Laws
pub mod Total
use vex_lua.Base.{
  ℕ, zero, suc, ◌+◌, ◌-◌, ◌%◌, ◌^◌, bit_and, Bool, ◌&&◌, List, Option, none, some, get_or, ◌==◌,
  if◌then◌else◌, Result, ok, err,
}
use vex_lua.Table.Layout.{Entry, empty_entry, ctrl_empty, ctrl_deleted}
use vex_lua.Table.Keys.{ctrl_fingerprint, values_equal, KeyError}

pub data Error : Type 0 where
  bad_key : KeyError → Error
  no_hash_part heap_failed : Error
  exhausted array_range duplicate_key : ℕ → Error

-- A key with its hash and class.
pub record Probe : Type 0 where
  pub key : ℕ
  pub full_hash : ℕ
  pub key_class : ℕ

pub record Cells : Type 0 where
  pub ctrl : List ℕ
  pub entries : List Entry
  pub capacity : ℕ

-- `entry.FullHash == fullHash && entry.KeyClass == keyClass && valuesEqual(entry.Key, key)`
unfoldable pub matches : Entry → Probe → Bool
matches e p = (e.full_hash == p.full_hash && e.key_class == p.key_class) && values_equal e.key p.key

abbrev pub first_deleted : Option ℕ → ℕ → Option ℕ
first_deleted none slot = some slot
first_deleted (some s) slot = some s

unfoldable pub probe_slot : Cells → Probe → ℕ → ℕ
probe_slot cells p probe =
    bit_and ((bit_and p.full_hash (cells.capacity - 1) + probe) % 2 ^ 32) (cells.capacity - 1)

-- What the loop returns when it meets an empty slot, and when it has met none.
abbrev pub vacant : Option ℕ → ℕ → ℕ × Option Entry
vacant none slot = (slot, none)
vacant (some s) slot = (s, none)

abbrev pub give_up : Option ℕ → ℕ → Result Error (ℕ × Option Entry)
give_up none capacity = err (exhausted capacity)
give_up (some s) capacity = ok (s, none)

-- The loop, with the rounds that are left and the number of the next one. The result is the slot
-- and, if the key is there, its entry.
unfoldable pub probe_loop : Cells → Probe → ℕ → ℕ → Option ℕ → Result Error (ℕ × Option Entry)
probe_loop cells p zero probe deleted = give_up deleted cells.capacity
probe_loop cells p (suc rounds) probe deleted =
    let slot = probe_slot cells p probe in
    let current = get_or cells.ctrl slot 0 in
    let entry = get_or cells.entries slot empty_entry in
    let rest =
      probe_loop cells p rounds (probe + 1)
        (if current == ctrl_deleted then first_deleted deleted slot else deleted) in
    if current == ctrl_empty
    then ok (vacant deleted slot)
    else if current == ctrl_deleted
    then rest
    else if current == ctrl_fingerprint p.full_hash && matches entry p
    then ok (slot, some entry)
    else rest

unfoldable pub find_entry : Cells → Probe → Result Error (ℕ × Option Entry)
find_entry cells p = probe_loop cells p cells.capacity 0 none
