-- ===== src/Table/Store/Laws.antt =====
-- What `Get` returns for a key after `Set` of it.
use vex_lua.Base.{ℕ, ◌<◌, ◌≤◌, ◌≡◌, refl, ap, sym, ◌∙◌, true, false, some, ok, arith}
use vex_lua.Value.TValue.{is_boxed_tag}
use vex_lua.Table.Layout.{nil_word, is_nil_value}
use vex_lua.Table.Keys.{array_index, should_use_array_path}
use vex_lua.Table.Store.{HeapOps, Table, read_array_slot}
use vex_lua.Table.Store.Write.{check_key, set_array_value, set_value, set_key}
use vex_lua.Table.Store.Read.{get_in_hash, get}
use vex_lua.Table.Store.Invariant.{HeapLaws, HasArray}
use vex_lua.Table.Store.Slot.{read_array_slot_congr, set_array_value_lem}
use vex_lua.Table.Store.Step.{array_index-positive, get_in_hash_congr, set_key_lem}

pub nil_word-nil : is_nil_value nil_word ≡ true
unfolding is_nil_value is_boxed_tag
nil_word-nil = refl

module _ {H : Type 0} (ops : HeapOps H) (laws : HeapLaws ops) (owner : ℕ) where
  pub target_lem :
      (h : H) (t : Table) (key value i : ℕ)
      → array_index key ≡ some i
      → should_use_array_path t.object.array_cap i value ≡ true
      → set_value ops owner h t key value ≡ set_array_value ops owner h t i value
  unfolding set_value
  target_lem h t key value i at path = ground arith

  covered_path : (cap i value : ℕ) → 0 < i → i ≤ cap → should_use_array_path cap i value ≡ true
  unfolding should_use_array_path
  covered_path cap i value positive low = ground arith

  get_slot :
      (t : Table) (key i v : ℕ)
      → check_key key ≡ ok tt
      → array_index key ≡ some i
      → i ≤ t.object.array_cap
      → read_array_slot t i ≡ v
      → is_nil_value v ≡ false
      → get ops t key ≡ ok (some v)
  unfolding get
  get_slot t key i v c at low here full = ground (arith, here)

  get_past :
      (t : Table) (key i : ℕ)
      → check_key key ≡ ok tt
      → array_index key ≡ some i
      → is_nil_value (read_array_slot t i) ≡ true
      → get ops t key ≡ get_in_hash ops t key
  unfolding get
  get_past t key i c at gone = ground arith

  -- What `Set` through the array part does.
  set_slot_lem :
      (h h' : H) (t t' : Table) (key value i : ℕ)
      → HasArray t
      → array_index key ≡ some i
      → should_use_array_path t.object.array_cap i value ≡ true
      → set_key ops owner h t key value ≡ ok (h', t')
      → (check_key key ≡ ok tt)
        × (i ≤ t'.object.array_cap)
        × (read_array_slot t' i ≡ value)
        × (get_in_hash ops t' key ≡ get_in_hash ops t key)
  set_slot_lem h h' t t' key value i v at path eq =
      let (h₁, u, c, s, ((array, hash), a, p, q)) = set_key_lem ops owner h h' t t' key value eq in
      let ((there, same, cs, es), here, positive, low) =
        set_array_value_lem ops laws owner h h₁ t u i value v
          (sym (target_lem h t key value i at path) ∙ s) in
      (
        c,
        omega (arith, low, array.0),
        read_array_slot_congr u t' i array a ∙ here,
        get_in_hash_congr ops u t' key hash p q ∙ get_in_hash_congr ops t u key same cs es,
      )

  -- After `Set` of a key to a value that is not nil, where the key is an index that goes to the
  -- array part, `Get` of the key returns the value.
  pub get-set_key_array :
      (h h' : H) (t t' : Table) (key value i : ℕ)
      → HasArray t
      → array_index key ≡ some i
      → should_use_array_path t.object.array_cap i value ≡ true
      → is_nil_value value ≡ false
      → set_key ops owner h t key value ≡ ok (h', t')
      → get ops t' key ≡ ok (some value)
  get-set_key_array h h' t t' key value i v at path full eq =
      let (c, low, here, hash) = set_slot_lem h h' t t' key value i v at path eq in
      get_slot t' key i value c at low here full

  -- For a table whose array is as its object says: a `Set` that succeeds of a key to nil, where
  -- the key is an index in the range of the array part, leaves what the hash part has for the
  -- key, and `Get` returns that. So the key is removed only if the hash part does not have it.
  pub get-set_key_nil :
      (h h' : H) (t t' : Table) (key i : ℕ)
      → HasArray t
      → array_index key ≡ some i
      → i ≤ t.object.array_cap
      → set_key ops owner h t key nil_word ≡ ok (h', t')
      → get ops t' key ≡ get_in_hash ops t key
  get-set_key_nil h h' t t' key i v at low eq =
      let path = covered_path t.object.array_cap i nil_word (array_index-positive key i at) low in
      let (c, low', here, hash) = set_slot_lem h h' t t' key nil_word i v at path eq in
      get_past t' key i c at (ap is_nil_value here ∙ nil_word-nil) ∙ hash
