-- ===== src/Table/Store/Border.antt =====
-- The searches of `Length`, over any test of an index: what they end at.
use vex_lua.Base.{
  ℕ, zero, suc, ◌+◌, ◌-◌, ◌*◌, ◌/◌, ◌%◌, ◌^◌, ◌<◌, ◌≤◌, ◌≡◌, refl, subst, Bool, true, false, ltb,
  leb, Result, ok, err, ◌>>=◌, arith, inl, inr, ◌⊎◌, dec_lt,
}
use native.Mathlib.Nat.{pow-suc}
use vex_lua.Table.Find.{Error}
use vex_lua.Table.Store.Read.{
  max_len_search_index, halve, linear_length_search, linear, doubling, unbound_length_search,
}

-- An index up to 2 ^ 31 that is 0 or present, with an absent one after it.
abbrev pub IsBorder : (ℕ → Result Error Bool) → ℕ → Type 0
IsBorder present n = ((n ≡ 0) ⊎ (present n ≡ ok true)) × (present (n + 1) ≡ ok false) × (n ≤ 2 ^ 31)

module _ (present : ℕ → Result Error Bool) where
  stop_lem :
      (i j n : ℕ)
      → j ≡ i + 1
      → j ≤ 2 ^ 31
      → (i ≡ 0) ⊎ (present i ≡ ok true)
      → present j ≡ ok false
      → i ≡ n
      → IsBorder present n
  stop_lem i j n next cap low high same =
      subst (IsBorder present) same
        (low, subst (λ x. present x ≡ ok false) next high, omega (arith, next, cap))

  halve_step :
      (rounds i j n : ℕ) (m : Result Error Bool)
      → i + 1 < j
      → j ≤ 2 ^ 31
      → j - i ≤ 2 ^ suc rounds
      → (i ≡ 0) ⊎ (present i ≡ ok true)
      → present j ≡ ok false
      → ((i j : ℕ)
          → i < j
          → j ≤ 2 ^ 31
          → j - i ≤ 2 ^ rounds
          → (i ≡ 0) ⊎ (present i ≡ ok true)
          → present j ≡ ok false
          → halve present rounds i j ≡ ok n
          → IsBorder present n)
      → present ((i + j) % 2 ^ 32 / 2) ≡ m
      → (m >>= λ test. elim test [
        | true ↦ halve present rounds ((i + j) % 2 ^ 32 / 2) j
        | false ↦ halve present rounds i ((i + j) % 2 ^ 32 / 2)
      ])
        ≡ ok n
      → IsBorder present n
  halve_step rounds i j n (ok true) lt cap size low high ih eq h =
      ih ((i + j) % 2 ^ 32 / 2) j (omega arith) cap (omega (arith, pow-suc 2 rounds)) (inr eq) high
        h
  halve_step rounds i j n (ok false) lt cap size low high ih eq h =
      ih i ((i + j) % 2 ^ 32 / 2) (omega arith) (omega arith) (omega (arith, pow-suc 2 rounds)) low
        eq h
  halve_step rounds i j n (err e) lt cap size low high ih eq h = cc

  halve_cases :
      (rounds i j n : ℕ)
      → halve present (suc rounds) i j ≡ ok n
      → ((j ≤ i + 1) × (i ≡ n))
        ⊎ ((i + 1 < j)
            × ((present ((i + j) % 2 ^ 32 / 2) >>= λ test. elim test [
              | true ↦ halve present rounds ((i + j) % 2 ^ 32 / 2) j
              | false ↦ halve present rounds i ((i + j) % 2 ^ 32 / 2)
            ])
                ≡ ok n))
  unfolding halve
  halve_cases rounds i j n h = elim (dec_lt (i + 1) j) [
    | yes lt ↦ inr (lt, ground arith)
    | no ge ↦ inl (omega (arith, ge), ground (arith, ge))
  ]

  -- Halving an interval of at most 2 ^ rounds, up to at most 2 ^ 31, ends at a border.
  pub halve_lem :
      (rounds i j n : ℕ)
      → i < j
      → j ≤ 2 ^ 31
      → j - i ≤ 2 ^ rounds
      → (i ≡ 0) ⊎ (present i ≡ ok true)
      → present j ≡ ok false
      → halve present rounds i j ≡ ok n
      → IsBorder present n
  halve_lem zero i j n lt cap size low high h =
      stop_lem i j n (omega arith) cap low high (unfold halve in ground arith)
  halve_lem (suc rounds) i j n lt cap size low high h = elim (halve_cases rounds i j n h) [
    | inl (near, same) ↦ stop_lem i j n (omega (arith, near)) cap low high same
    | inr (far, rest) ↦
        halve_step rounds i j n (present ((i + j) % 2 ^ 32 / 2)) far cap size low high
          (λ i' j'. halve_lem rounds i' j' n) refl rest
  ]

  linear_lem :
      (rounds index n : ℕ)
      → 0 < index
      → rounds + index ≤ 2 ^ 31
      → (index - 1 ≡ 0) ⊎ (present (index - 1) ≡ ok true)
      → linear_length_search present rounds index ≡ ok n
      → (n ≡ max_len_search_index) ⊎ IsBorder present n
  linear_lem zero index n some_index bound low h = inl (unfold linear_length_search in ground arith)
  linear_lem (suc rounds) index n some_index bound low h =
      go (λ y. linear_lem rounds (index + 1) n y) (present index) refl
        (unfold linear_length_search in h)
    where
      go :
          (0 < index + 1
            → rounds + (index + 1) ≤ 2 ^ 31
            → (index + 1 - 1 ≡ 0) ⊎ (present (index + 1 - 1) ≡ ok true)
            → linear_length_search present rounds (index + 1) ≡ ok n
            → (n ≡ max_len_search_index) ⊎ IsBorder present n)
          → (m : Result Error Bool) → present index ≡ m
          → (m >>= λ test. elim test [
            | true ↦ linear_length_search present rounds (index + 1)
            | false ↦ ok (index - 1)
          ])
            ≡ ok n
          → (n ≡ max_len_search_index) ⊎ IsBorder present n
      go ih (ok true) eq rest =
          let back : index ≡ index + 1 - 1 = omega arith in
          ih (omega arith) (omega (arith, bound)) (inr (subst (λ x. present x ≡ ok true) back eq))
            rest
      go ih (ok false) eq rest = inr (
          stop_lem (index - 1) index n (omega arith) (omega (arith, bound)) low eq
            (ground (arith, rest)))
      go ih (err e) eq rest = cc

  linear_all : (n : ℕ) → linear present ≡ ok n → (n ≡ max_len_search_index) ⊎ IsBorder present n
  linear_all n h =
      linear_lem (max_len_search_index - 1) 1 n (omega arith) (omega arith) (inl (omega arith)) h

  doubling_lem :
      (rounds i j n : ℕ)
      → i < j
      → j ≤ 2 ^ 31
      → (i ≡ 0) ⊎ (present i ≡ ok true)
      → doubling present rounds i j ≡ ok n
      → (n ≡ max_len_search_index) ⊎ IsBorder present n
  doubling_lem zero i j n lt size low h = linear_all n (unfold doubling in h)
  doubling_lem (suc rounds) i j n lt size low h =
      go (doubling_lem rounds j (j * 2) n) (present j) refl (unfold doubling in h)
    where
      next :
          (j < j * 2
            → j * 2 ≤ 2 ^ 31
            → (j ≡ 0) ⊎ (present j ≡ ok true)
            → doubling present rounds j (j * 2) ≡ ok n
            → (n ≡ max_len_search_index) ⊎ IsBorder present n)
          → (b : Bool) → ltb (max_len_search_index / 2) j ≡ b
          → present j ≡ ok true
          → elim b [ true ↦ linear present | false ↦ doubling present rounds j (j * 2) ] ≡ ok n
          → (n ≡ max_len_search_index) ⊎ IsBorder present n
      next ih true past eq rest = linear_all n rest
      next ih false past eq rest =
          let small : j ≤ 2 ^ 30 = ground (arith, past) in
          ih (omega arith) (omega (arith, small)) (inr eq) rest

      go :
          (j < j * 2
            → j * 2 ≤ 2 ^ 31
            → (j ≡ 0) ⊎ (present j ≡ ok true)
            → doubling present rounds j (j * 2) ≡ ok n
            → (n ≡ max_len_search_index) ⊎ IsBorder present n)
          → (m : Result Error Bool) → present j ≡ m
          → (m >>= λ test. elim test [
            | false ↦ halve present 32 i j
            | true ↦ elim (ltb (max_len_search_index / 2) j) [
              | true ↦ linear present
              | false ↦ doubling present rounds j (j * 2)
            ]
          ])
            ≡ ok n
          → (n ≡ max_len_search_index) ⊎ IsBorder present n
      go ih (ok true) eq rest = next ih (ltb (max_len_search_index / 2) j) refl eq rest
      go ih (ok false) eq rest = inr (halve_lem 32 i j n lt size (omega arith) low eq rest)
      go ih (err e) eq rest = cc

  pub unbound_lem :
      (j n : ℕ)
      → (j ≡ 0) ⊎ (present j ≡ ok true)
      → unbound_length_search present j ≡ ok n
      → (n ≡ max_len_search_index) ⊎ IsBorder present n
  unbound_lem j n low h = go (leb max_len_search_index j) refl (unfold unbound_length_search in h)
    where
      go :
          (b : Bool)
          → leb max_len_search_index j ≡ b
          → elim b [ true ↦ linear present | false ↦ doubling present 32 j (j + 1) ] ≡ ok n
          → (n ≡ max_len_search_index) ⊎ IsBorder present n
      go true past rest = linear_all n rest
      go false past rest =
          let small : j < max_len_search_index = ground (arith, past) in
          doubling_lem 32 j (j + 1) n (omega arith) (omega (arith, small)) low rest
