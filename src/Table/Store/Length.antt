-- ===== src/Table/Store/Length.antt =====
-- internal/runtime/table/store.go: `Length` beside the slots of the array part and `Get`.
use vex_lua.Base.{
  ℕ, zero, suc, ◌+◌, ◌*◌, ◌/◌, ◌^◌, ◌<◌, ◌≤◌, ◌≡◌, refl, ap, sym, ◌∙◌, Bool, true, false, Option,
  none, some, ltb, Result, ok, err, ◌>>=◌, arith, ◌⊎◌, inl, inr, dec_lt,
}
use native.Mathlib.Nat.{pow-suc, mul_assoc, mul_comm}
use vex_lua.Table.Layout.{is_nil_value}
use vex_lua.Table.Find.{Error}
use vex_lua.Table.Store.{HeapOps, Table, read_array_slot}
use vex_lua.Table.Store.Read.{
  is_some, of_u32, get, get_in_hash, integer_key_present, max_len_search_index, halve, linear,
  doubling, array_present, table_length,
}
use vex_lua.Table.Store.Integers.{get-of_u32}
use vex_lua.Table.Store.Border.{IsBorder, halve_lem, unbound_lem}

module _ {H : Type 0} (ops : HeapOps H) (t : Table) where
  -- The two tests of a key agree on the array part.
  in_array :
      (n : ℕ) → 0 < n → n ≤ t.object.array_cap → integer_key_present ops t n ≡ array_present t n
  unfolding integer_key_present
  in_array n positive low = ground arith

  past_array :
      (n : ℕ)
      → t.object.hash_capacity ≡ 0
      → t.object.array_cap < n
      → integer_key_present ops t n ≡ ok false
  unfolding integer_key_present get_in_hash
  past_array n c high = ground arith

  -- A slot that is not nil is in the array part.
  present_below : (n : ℕ) → array_present t n ≡ ok true → n ≤ t.object.array_cap
  unfolding read_array_slot is_nil_value
  present_below n h = ground arith

  IsBorder-below :
      (n : ℕ)
      → 0 < t.object.array_cap
      → array_present t (t.object.array_cap) ≡ ok false
      → IsBorder (array_present t) n
      → IsBorder (integer_key_present ops t) n
  IsBorder-below n c last (low, high, bound) =
      ground (arith, in_array n, in_array (n + 1), present_below n, bound)

  searched :
      (n : ℕ)
      → t.object.array_cap ≤ 2 ^ 31
      → table_length ops t ≡ ok n
      → (n ≡ max_len_search_index) ⊎ IsBorder (integer_key_present ops t) n
  unfolding table_length
  searched n bound h =
      let cap = t.object.array_cap in
      ground (
        arith,
        halve_lem (array_present t) 32 0 cap n,
        IsBorder-below n,
        unbound_lem (integer_key_present ops t) cap n,
        in_array cap,
        past_array (cap + 1),
      )

  -- A value stands at an index: in its slot of the array part, or, past that part, for `Get`.
  abbrev pub IsPresent : ℕ → Type 0
  IsPresent n =
      ((n ≤ t.object.array_cap) × (is_nil_value (read_array_slot t n) ≡ false))
      ⊎ ((t.object.array_cap < n) × ((v : ℕ) × (get ops t (of_u32 n) ≡ ok (some v))))

  -- No value stands there.
  abbrev pub IsAbsent : ℕ → Type 0
  IsAbsent n =
      ((n ≤ t.object.array_cap) × (is_nil_value (read_array_slot t n) ≡ true))
      ⊎ ((t.object.array_cap < n) × (get ops t (of_u32 n) ≡ ok none))

  past_present :
      (n : ℕ)
      → t.object.array_cap < n
      → integer_key_present ops t n
        ≡ (get_in_hash ops t (of_u32 n) >>= λ value. ok (is_some ops value))
  unfolding integer_key_present
  past_present n past = ground arith

  value_found :
      (m : Result Error (Option ℕ))
      → (m >>= λ value. ok (is_some ops value)) ≡ ok true
      → (v : ℕ) × (m ≡ ok (some v))
  value_found (ok (some v)) h = (v, refl)
  value_found (ok none) h = cc
  value_found (err e) h = cc

  none_found :
      (m : Result Error (Option ℕ))
      → (m >>= λ value. ok (is_some ops value)) ≡ ok false
      → m ≡ ok none
  none_found (ok (some v)) h = cc
  none_found (ok none) h = refl
  none_found (err e) h = cc

  is_present : (n : ℕ) → n < 2 ^ 32 → integer_key_present ops t n ≡ ok true → IsPresent n
  unfolding integer_key_present
  is_present n small h = elim (dec_lt (t.object.array_cap) n) [
    | no inside ↦ inl (omega (arith, inside), ground (arith, h, inside))
    | yes past ↦
        (let (v, found) =
            value_found (get_in_hash ops t (of_u32 n)) (sym (past_present n past) ∙ h) in
          inr (past, (v, get-of_u32 ops t n past small ∙ found)))
  ]

  is_absent : (n : ℕ) → 0 < n → n < 2 ^ 32 → integer_key_present ops t n ≡ ok false → IsAbsent n
  unfolding integer_key_present
  is_absent n positive small h = elim (dec_lt (t.object.array_cap) n) [
    | no inside ↦ inl (omega (arith, inside), ground (arith, h, inside, positive))
    | yes past ↦ inr (
      past,
      get-of_u32 ops t n past small
          ∙ none_found (get_in_hash ops t (of_u32 n)) (sym (past_present n past) ∙ h),
    )
  ]

  counted :
      (n : ℕ)
      → (n ≡ max_len_search_index) ⊎ IsBorder (integer_key_present ops t) n
      → (n ≡ max_len_search_index) ⊎ (((n ≡ 0) ⊎ IsPresent n) × IsAbsent (n + 1))
  counted n (inl most) = inl most
  counted n (inr (inl none_there, high, bound)) =
      inr (inl none_there, is_absent (n + 1) (omega arith) (omega (arith, bound)) high)
  counted n (inr (inr low, high, bound)) = inr (
    inr (is_present n (omega (arith, bound)) low),
    is_absent (n + 1) (omega arith) (omega (arith, bound)) high,
  )

  -- What `Length` returns, for an array part of at most 2 ^ 31 slots, is 0 or an index at which a
  -- value stands, with none at the next index; or it is 2 ^ 31 - 1, the largest index that `Length`
  -- searches for. A value stands at an index of the array part if the index's slot is not nil, and
  -- at one past it if `Get` finds a value for the index's number.
  pub table_length-IsBorder :
      (n : ℕ)
      → t.object.array_cap ≤ 2 ^ 31
      → table_length ops t ≡ ok n
      → (n ≡ max_len_search_index) ⊎ (((n ≡ 0) ⊎ IsPresent n) × IsAbsent (n + 1))
  table_length-IsBorder n bound h = counted n (searched n bound h)

-- A round of the doubling, with the result of the next rounds.
abbrev round : (ℕ → Result Error Bool) → ℕ → ℕ → Result Error ℕ → Result Error Bool → Result Error ℕ
round present i j next m = m >>= λ test. elim test [
  | false ↦ halve present 32 i j
  | true ↦ elim (ltb (max_len_search_index / 2) j) [ true ↦ linear present | false ↦ next ]
]

round_congr :
    (present : ℕ → Result Error Bool) (i j : ℕ) (x y : Result Error ℕ) (m : Result Error Bool)
    → (j ≤ max_len_search_index / 2 → x ≡ y)
    → round present i j x m ≡ round present i j y m
round_congr present i j x y (ok true) same = ground arith
round_congr present i j x y (ok false) same = refl
round_congr present i j x y (err e) same = refl

doubling-round :
    (present : ℕ → Result Error Bool) (n i j : ℕ)
    → doubling present (suc n) i j ≡ round present i j (doubling present n j (j * 2)) (present j)
unfolding doubling
doubling-round present n i j = refl

doubling_more :
    (present : ℕ → Result Error Bool) (r i j : ℕ)
    → max_len_search_index / 2 < j * 2 ^ r
    → doubling present (suc r) i j ≡ doubling present (suc (suc r)) i j
doubling_more present zero i j big =
    rw (doubling-round present zero i j, doubling-round present (suc zero) i j)
      (round_congr present i j (doubling present zero j (j * 2))
        (doubling present (suc zero) j (j * 2)) (present j)
        (λ small. absurd (omega (arith, small, big))))
doubling_more present (suc r) i j big =
    rw (doubling-round present (suc r) i j, doubling-round present (suc (suc r)) i j)
      (round_congr present i j (doubling present (suc r) j (j * 2))
        (doubling present (suc (suc r)) j (j * 2)) (present j)
        (λ small. doubling_more present r j (j * 2) (
          omega (
            arith,
            pow-suc 2 r,
            mul_assoc j 2 (2 ^ r),
            ap (λ x. j * x) (mul_comm 2 (2 ^ r)),
            ap (λ x. j * x) (pow-suc 2 r),
          ))))

-- From an index that is not 0, the doubling loop of `Length` ends within the 32 rounds that the
-- model gives it: a 33rd changes no result.
pub doubling-rounds :
    (present : ℕ → Result Error Bool) (i j : ℕ)
    → 0 < j
    → doubling present 32 i j ≡ doubling present 33 i j
doubling-rounds present i j positive = doubling_more present 31 i j (omega arith)
