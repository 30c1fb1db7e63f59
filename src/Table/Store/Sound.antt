-- ===== src/Table/Store/Sound.antt =====
-- internal/runtime/table/store.go: `DescribeFastGet` beside `Get`.
use vex_lua.Base.{
  ℕ, ◌+◌, ◌-◌, ◌<◌, ◌≡◌, refl, ap, not, Option, none, some, ◌==◌, if◌then◌else◌, Result, ok, err,
  ◌>>=◌, arith,
}
use vex_lua.Table.Layout.{Entry, is_nil_value}
use vex_lua.Table.Keys.{array_index, class_interned_string}
use vex_lua.Table.Find.{Error, Probe, find_entry}
use vex_lua.Table.Find.View.{find_entry-found}
use vex_lua.Table.Find.Search.{entry_at}
use vex_lua.Table.Store.{
  HeapOps, Table, cells_of, hash_regions, find_in, read_array_slot, probe_key,
}
use vex_lua.Table.Store.Write.{check_key}
use vex_lua.Table.Store.Read.{
  FastAccess, access_array, access_hash, from_array, present_value, get_in_hash, get, describe,
  describe_in_hash, describe_fast_get, hash_access,
}

-- What compiled code loads through an access.
abbrev pub fast_value : Table → FastAccess → ℕ
fast_value t (access_array version slot key) = read_array_slot t (slot + 1)
fast_value t (access_hash version slot key) = (entry_at (cells_of t) slot).value

pub find_in-found :
    (t : Table) (p : Probe) (s : ℕ) (e : Entry)
    → find_in t p ≡ ok (s, some e)
    → (0 < t.object.hash_capacity) × (find_entry (cells_of t) p ≡ ok (s, some e))
unfolding find_in hash_regions
find_in-found t p s e h = ground arith

found_value :
    (t : Table) (p : Probe) (key : ℕ) (r : ℕ × Option Entry) (a : FastAccess)
    → find_in t p ≡ ok r
    → hash_access t.object key r ≡ some a
    → present_value r ≡ some (fast_value t a)
found_value t p key (s, some e) (access_hash v i k) found h =
    let (c, at) = find_in-found t p s e found in
    let (live, here, hit) = find_entry-found (cells_of t) p s e c at in ground (arith, here)
found_value t p key (s, some e) (access_array v i k) found h = ground arith
found_value t p key (s, none) a found h = cc

array_value :
    (t : Table) (key : ℕ) (index : Option ℕ) (i v : ℕ)
    → from_array t index ≡ some (i, v)
    → (v ≡ fast_value t (access_array t.object.table_version (i - 1) key))
unfolding read_array_slot is_nil_value
array_value t key (some index) i v h = ground arith
array_value t key none i v h = cc

module _ {H : Type 0} (ops : HeapOps H) (t : Table) (key : ℕ) where
  searched_lem :
      (p : Probe) (a : FastAccess) (m : Result Error (ℕ × Option Entry))
      → find_in t p ≡ m
      → (m >>= λ r. ok (hash_access t.object key r)) ≡ ok (some a)
      → (m >>= λ r. ok (present_value r)) ≡ ok (some (fast_value t a))
  searched_lem p a (ok r) eq h = ap ok (found_value t p key r a eq (ground (arith, h)))
  searched_lem p a (err e) eq h = cc

  described_in_hash :
      (a : FastAccess)
      → describe_in_hash ops t key ≡ ok (some a)
      → get_in_hash ops t key ≡ ok (some (fast_value t a))
  unfolding get_in_hash describe_in_hash
  described_in_hash a h = go (probe_key ops t.object key) h
    where
      go :
          (m : Result Error (Probe × ℕ))
          → (if t.object.hash_capacity == 0
              then ok none
              else (m >>= λ x.
                  if not (x.0.key_class == class_interned_string)
                  then ok none
                  else (find_in t (x.0) >>= λ r. ok (hash_access t.object key r))))
            ≡ ok (some a)
          → (if t.object.hash_capacity == 0
              then ok none
              else (m >>= λ x. find_in t (x.0) >>= λ r. ok (present_value r)))
            ≡ ok (some (fast_value t a))
      go (ok (p, aux)) h = ground (arith, searched_lem p a (find_in t p) refl)
      go (err e) h = ground arith

  described_lem :
      (a : FastAccess)
      → describe ops t key ≡ ok (some a)
      → check_key key ≡ ok tt
      → get ops t key ≡ ok (some (fast_value t a))
  unfolding describe get
  described_lem a h c = rw c (go (from_array t (array_index key)) refl h)
    where
      go :
          (x : Option (ℕ × ℕ))
          → from_array t (array_index key) ≡ x
          → elim x [
            | some (index, value) ↦ ok (some (access_array t.object.table_version (index - 1) key))
            | none ↦ describe_in_hash ops t key
          ]
            ≡ ok (some a)
          → elim x [ some (index, value) ↦ ok (some value) | none ↦ get_in_hash ops t key ]
            ≡ ok (some (fast_value t a))
      go (some (i, v)) eq h = ground (arith, array_value t key (array_index key) i v eq)
      go none eq h = described_in_hash a h

  -- When a fast get is described, `Get` finds the key, and its value is the one in the slot that
  -- the description names: of the array part or of the hash part.
  pub describe_fast_get-get :
      (a : FastAccess)
      → describe_fast_get ops t key ≡ ok (some a)
      → get ops t key ≡ ok (some (fast_value t a))
  unfolding describe_fast_get
  describe_fast_get-get a h = ground (arith, described_lem a)
