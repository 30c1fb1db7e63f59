-- ===== src/Table/Store/Hash.antt =====
-- `setHashValue` with a value that is not nil: the search finds the value then.
use vex_lua.Base.{
  ℕ, zero, suc, ◌+◌, ◌%◌, ◌^◌, ◌≡◌, ◌≢◌, refl, ap, sym, ◌∙◌, subst, Bool, true, false, List, [],
  ◌∷◌, get_or, none, some, set, ok, arith,
}
use vex_lua.Base.Float.{float_eq}
use vex_lua.Table.Layout.{Object, Entry, sync_layout_flags, bump_version, is_nil_value}
use vex_lua.Table.Keys.{values_equal, validate_key, ctrl_fingerprint}
use vex_lua.Table.Find.{Probe, matches, find_entry}
use vex_lua.Table.Find.Search.{ctrl_at, found_lem}
use vex_lua.Table.Find.Update.{write_cell, inserted_lem, overwritten_lem}
use vex_lua.Table.Find.Effect.{absent-IsVacant}
use vex_lua.Table.Store.{HeapOps, Table, cells_of, hash_regions, find_in, probe_key}
use vex_lua.Table.Store.Grow.{bump_if}
use vex_lua.Table.Store.Write.{check_key, with_count, with_value, with_entry, entry_for}
use vex_lua.Table.Store.Read.{get_in_hash}
use vex_lua.Table.Store.Invariant.{HashGrown, SameLayout, bump_if_same}
use vex_lua.Table.Store.Rehash.{cell_lem, object_lem}

pub set-get_or {ℓ} : {A : Type ℓ} (xs : List A) (i : ℕ) (d : A) → set xs i (get_or xs i d) ≡ xs
set-get_or [] i d = refl
set-get_or (x ∷ xs) zero d = refl
set-get_or (x ∷ xs) (suc i) d = ap (λ ys. x ∷ ys) (set-get_or xs i d)

-- A key that is not NaN matches its own entry.
pub matches_self :
    (p : Probe) (aux value : ℕ) → check_key p.key ≡ ok tt → matches (entry_for p aux value) p ≡ true
unfolding matches values_equal float_eq validate_key
matches_self p aux value c = ground arith

pub count_same : (o : Object) (n : ℕ) → SameLayout (with_count o n) o
unfolding with_count sync_layout_flags bump_version
count_same o n = ((refl, refl), (refl, refl, refl, refl))

pub probe_key-key :
    {H : Type 0} (ops : HeapOps H) (o : Object) (key aux : ℕ) (p : Probe)
    → probe_key ops o key ≡ ok (p, aux)
    → p.key ≡ key
unfolding probe_key
probe_key-key ops o key aux p h = ground arith

pub probe_key_congr :
    {H : Type 0} (ops : HeapOps H) (a b : Object) (key : ℕ)
    → a.hash_seed ≡ b.hash_seed
    → probe_key ops a key ≡ probe_key ops b key
unfolding probe_key
probe_key_congr ops a b key h = rw h refl

-- Where the regions are there, the search goes through them.
pub find_in_regions :
    (t : Table) (p : Probe)
    → t.object.hash_capacity ≢ 0
    → t.object.ctrl_data ≢ 0
    → t.object.entries_data ≢ 0
    → find_in t p ≡ find_entry (cells_of t) p
unfolding find_in hash_regions
find_in_regions t p a b c = ground arith

pub get_found :
    {H : Type 0} (ops : HeapOps H) (t : Table) (p : Probe) (key aux s : ℕ) (e : Entry)
    → t.object.hash_capacity ≢ 0
    → probe_key ops t.object key ≡ ok (p, aux)
    → find_in t p ≡ ok (s, some e)
    → is_nil_value e.value ≡ false
    → get_in_hash ops t key ≡ ok (some e.value)
unfolding get_in_hash
get_found ops t p key aux s e c h f full = ground arith

-- What a hash part finds after the write, of a new entry or of a new value.
abbrev pub Finds : {H : Type 0} → HeapOps H → Table → Table → ℕ → ℕ → Type 0
Finds ops base t key value = HashGrown base t × (get_in_hash ops t key ≡ ok (some value))

finds_lem :
    {H : Type 0} (ops : HeapOps H) (base t : Table) (p : Probe) (aux s c key : ℕ) (e : Entry)
    (o : Object)
    → HashGrown base t
    → SameLayout o (t.object)
    → probe_key ops t.object key ≡ ok (p, aux)
    → find_entry (write_cell (cells_of t) s c e) p ≡ ok (s, some e)
    → is_nil_value e.value ≡ false
    → Finds ops base
        (record t { object = o; ctrl = set t.ctrl s c; entries = set t.entries s e })
        key
        e.value
finds_lem ops base t p aux s c key e o g same h f full =
    let t' = record t { object = o; ctrl = set t.ctrl s c; entries = set t.entries s e } in
    let g' : HashGrown base t' =
      object_lem base (record t { ctrl = set t.ctrl s c; entries = set t.entries s e }) o
        (cell_lem base t s c e g) same in
    let capacity : cells_of t' ≡ write_cell (cells_of t) s c e =
      ap (λ n. record (write_cell (cells_of t) s c e) { capacity = n }) same.1.0 in
    let some_slot : t'.object.hash_capacity ≢ 0 = λ z. omega (arith, z, g'.0.some_slot) in
    (
      g',
      get_found ops t' p key aux s e some_slot (probe_key_congr ops o t.object key same.1.3 ∙ h)
          (find_in_regions t' p some_slot g'.1 g'.2 ∙ ap (λ x. find_entry x p) capacity ∙ f) full,
    )

-- A value in an entry is not part of its key.
pub matches_value :
    (e : Entry) (p : Probe) (value : ℕ) → matches (record e { value = value }) p ≡ matches e p
unfolding matches
matches_value e p value = refl

module _ {H : Type 0} (ops : HeapOps H) (base t : Table) (p : Probe) (aux key value : ℕ)
    (g : HashGrown base t) (h : probe_key ops t.object key ≡ ok (p, aux))
    (c : check_key key ≡ ok tt) (full : is_nil_value value ≡ false) where
  through : find_in t p ≡ find_entry (cells_of t) p
  through = find_in_regions t p (λ z. omega (arith, z, g.0.some_slot)) (g.1) (g.2)

  pub value_lem :
      (s : ℕ) (e : Entry) (bump : Bool)
      → find_in t p ≡ ok (s, some e)
      → Finds ops base (with_value t s e value bump) key value
  unfolding with_value find_entry
  value_lem s e bump f =
      let found = sym through ∙ f in
      let (below, fp, at, hit) =
        found_lem (cells_of t) p t.object.hash_capacity 0 none s e (g.0.some_slot) found in
      let new = record e { value = value } in
      subst
        (λ ys.
          Finds ops base
            (record t { object = bump_if bump t.object; ctrl = ys; entries = set t.entries s new })
            key value)
        (set-get_or t.ctrl s 0)
        (finds_lem ops base t p aux s (ctrl_at (cells_of t) s) key new (bump_if bump t.object) g
          (bump_if_same bump t.object) h
          (overwritten_lem (cells_of t) s (ctrl_at (cells_of t) s) new (g.0) below p fp
            (matches_value e p value ∙ hit) t.object.hash_capacity 0 none none e found)
          full)

  pub entry_lem :
      (s : ℕ)
      → find_in t p ≡ ok (s, none)
      → Finds ops base (with_entry t s (entry_for p aux value)) key value
  unfolding with_entry find_entry
  entry_lem s f =
      let found = sym through ∙ f in
      let (below, vacant) = absent-IsVacant (cells_of t) p s (g.0) found in
      let e = entry_for p aux value in
      let o = with_count t.object ((t.object.hash_count + 1) % 2 ^ 32) in
      let same_key = probe_key-key ops t.object key aux p h in
      finds_lem ops base t p aux s (ctrl_fingerprint p.full_hash) key e o g
        (count_same t.object ((t.object.hash_count + 1) % 2 ^ 32)) h
        (inserted_lem (cells_of t) s (ctrl_fingerprint p.full_hash) e (g.0) below p refl
          (matches_self p aux value (ap check_key same_key ∙ c)) t.object.hash_capacity 0 found)
        full
