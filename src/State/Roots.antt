-- ===== src/State/Roots.antt =====
-- internal/runtime/state/external_roots.go: references that the host keeps, with their counts.
-- A Go map is the list of its pairs; Go leaves the order of a walk open, which is the list's here.
use vex_lua.Base.{
  ℕ, ◌+◌, ◌-◌, ◌^◌, ◌%◌, ◌<◌, ◌≡◌, ◌≢◌, refl, ap, ◌∙◌, sym, Bool, true, false, Bool-cases, ==_iff,
  inl, inr, List, [], ◌∷◌, length, Option, none, some, leb, ◌==◌, if◌then◌else◌, Result, ok, err,
  ◌>>=◌, arith,
}
use vex_lua.Value.TValue.{heap_ref}

abbrev pub Roots : Type 0
Roots = List (ℕ × ℕ)

pub data RootError : Type 0 where
  not_retained : ℕ → RootError

abbrev pub new_roots : Roots
new_roots = []

abbrev pub count_of : Roots → ℕ → Option ℕ
count_of [] ref = none
count_of ((r, c) ∷ rest) ref = if r == ref then some c else count_of rest ref

abbrev pub with_count : Roots → ℕ → ℕ → Roots
with_count [] ref count = (ref, count) ∷ []
with_count ((r, c) ∷ rest) ref count =
    if r == ref then (r, count) ∷ rest else (r, c) ∷ with_count rest ref count

abbrev pub without_ref : Roots → ℕ → Roots
without_ref [] ref = []
without_ref ((r, c) ∷ rest) ref =
    if r == ref then without_ref rest ref else (r, c) ∷ without_ref rest ref

abbrev pub or_zero : Option ℕ → ℕ
or_zero none = 0
or_zero (some count) = count

unfoldable pub ref_count : Roots → ℕ → ℕ
ref_count t ref = if ref == 0 then 0 else or_zero (count_of t ref)

unfoldable pub retain_ref : Roots → ℕ → Roots × Bool
retain_ref t ref =
    if ref == 0
    then (t, false)
    else (with_count t ref ((or_zero (count_of t ref) + 1) % 2 ^ 32), true)

unfoldable pub retain_value : Roots → ℕ → Roots × Bool
unfolding retain_ref heap_ref
retain_value t word = elim (heap_ref word) [
  | none ↦ (t, false)
  | some ref ↦ if ref == 0 then (t, false) else retain_ref t ref
]

unfoldable pub release_ref : Roots → ℕ → Result RootError Roots
release_ref t ref = if ref == 0 then ok t else elim (count_of t ref) [
  | none ↦ err (not_retained ref)
  | some count ↦ if leb count 1 then ok (without_ref t ref) else ok (with_count t ref (count - 1))
]

unfoldable pub release_value : Roots → ℕ → Result RootError Roots
unfolding release_ref heap_ref
release_value t word = elim (heap_ref word) [
  | none ↦ ok t
  | some ref ↦ if ref == 0 then ok t else release_ref t ref
]

-- `WalkRefs`, with a visit that may stop the walk and keeps a state of its own.
unfoldable pub walk_refs : {S E : Type 0} → (S → ℕ → Result E S) → Roots → S → Result E S
walk_refs visit [] s = ok s
walk_refs visit ((r, c) ∷ rest) s =
    if r == 0 then walk_refs visit rest s else (do s' ← visit s r; walk_refs visit rest s')

unfoldable pub root_count : Roots → ℕ
root_count t = length t

unfoldable pub clear_roots : Roots → Roots
clear_roots t = []

count_of-with_count_self :
    (t : Roots) (ref count : ℕ) → count_of (with_count t ref count) ref ≡ some count
count_of-with_count_self [] ref count =
    let same : (ref == ref) ≡ true = (==_iff ref ref).1 refl in rw same refl
count_of-with_count_self ((r, c) ∷ rest) ref count = elim (Bool-cases (r == ref)) [
  | inl here ↦ rw (here, here) refl
  | inr away ↦ rw (away, away) (count_of-with_count_self rest ref count)
]

count_of-with_count_other :
    (t : Roots) (ref other count : ℕ)
    → (ref == other) ≡ false
    → count_of (with_count t ref count) other ≡ count_of t other
count_of-with_count_other [] ref other count ne = rw ne refl
count_of-with_count_other ((r, c) ∷ rest) ref other count ne = elim (Bool-cases (r == ref)) [
  | inl here ↦
      (let e : r ≡ ref = (==_iff r ref).0 here in
        let apart : (r == other) ≡ false = ap (λ x. x == other) e ∙ ne in rw (here, apart) refl)
  | inr away ↦ rw away (
      ap (λ x. if r == other then some c else x)
        (count_of-with_count_other rest ref other count ne))
]

count_of-without_self : (t : Roots) (ref : ℕ) → count_of (without_ref t ref) ref ≡ none
count_of-without_self [] ref = refl
count_of-without_self ((r, c) ∷ rest) ref = elim (Bool-cases (r == ref)) [
  | inl here ↦ rw here (count_of-without_self rest ref)
  | inr away ↦ rw (away, away) (count_of-without_self rest ref)
]

count_of-without_other :
    (t : Roots) (ref other : ℕ)
    → (ref == other) ≡ false
    → count_of (without_ref t ref) other ≡ count_of t other
count_of-without_other [] ref other ne = refl
count_of-without_other ((r, c) ∷ rest) ref other ne = elim (Bool-cases (r == ref)) [
  | inl here ↦
      (let e : r ≡ ref = (==_iff r ref).0 here in
        let apart : (r == other) ≡ false = ap (λ x. x == other) e ∙ ne in
        rw (here, apart) (count_of-without_other rest ref other ne))
  | inr away ↦
      rw away
        (ap (λ x. if r == other then some c else x) (count_of-without_other rest ref other ne))
]

-- The count of a reference after another one was set, and after it was set itself.
counts :
    (t : Roots) (ref count other : ℕ)
    → or_zero (count_of (with_count t ref count) other)
      ≡ (if ref == other then count else or_zero (count_of t other))
counts t ref count other = elim (Bool-cases (ref == other)) [
  | inl here ↦
      (let e : ref ≡ other = (==_iff ref other).0 here in
        rw here (
          ap (λ x. or_zero (count_of (with_count t ref count) x)) (sym e)
          ∙ ap or_zero (count_of-with_count_self t ref count)))
  | inr away ↦ rw away (ap or_zero (count_of-with_count_other t ref other count away))
]

counts_without :
    (t : Roots) (ref other : ℕ)
    → or_zero (count_of (without_ref t ref) other)
      ≡ (if ref == other then 0 else or_zero (count_of t other))
counts_without t ref other = elim (Bool-cases (ref == other)) [
  | inl here ↦
      (let e : ref ≡ other = (==_iff ref other).0 here in
        rw here (
          ap (λ x. or_zero (count_of (without_ref t ref) x)) (sym e)
          ∙ ap or_zero (count_of-without_self t ref)))
  | inr away ↦ rw away (ap or_zero (count_of-without_other t ref other away))
]

released :
    (t : Roots) (ref count : ℕ)
    → count ≡ or_zero (count_of t ref)
    → ref ≢ 0
    → (t'' : Roots) × (release_ref (with_count t ref (count + 1)) ref ≡ ok t'')
      × ((other : ℕ) → or_zero (count_of t'' other) ≡ or_zero (count_of t other))
unfolding release_ref
released t ref count eq nz =
    let some_ref : (ref == 0) ≡ false = ground (arith, nz) in
    let t₁ = with_count t ref (count + 1) in
    let at = count_of-with_count_self t ref (count + 1) in
    let one_less : count + 1 - 1 ≡ count = omega arith in
    elim (Bool-cases (leb (count + 1) 1)) [
      | inl last ↦ (
        without_ref t₁ ref,
        rw (release_ref, some_ref, at, last) refl,
        λ other. counts_without t₁ ref other ∙ last_count last other,
      )
      | inr more ↦ (
        with_count t₁ ref count,
        rw (release_ref, some_ref, at, more) (ap (λ c. ok (with_count t₁ ref c)) one_less),
        λ other. counts t₁ ref count other ∙ other_count other,
      )
    ]
  where
    other_count :
        (other : ℕ)
        → (if ref == other then count else or_zero (count_of (with_count t ref (count + 1)) other))
          ≡ or_zero (count_of t other)
    other_count other = elim (Bool-cases (ref == other)) [
      | inl here ↦ rw here (eq ∙ ap (λ x. or_zero (count_of t x)) ((==_iff ref other).0 here))
      | inr away ↦ rw away (ap or_zero (count_of-with_count_other t ref other (count + 1) away))
    ]

    last_count :
        leb (count + 1) 1 ≡ true
        → (other : ℕ)
        → (if ref == other then 0 else or_zero (count_of (with_count t ref (count + 1)) other))
          ≡ or_zero (count_of t other)
    last_count last other =
        let none_left : 0 ≡ count = ground (arith, last) in
        ap
          (λ c. if ref == other then c else or_zero (count_of (with_count t ref (count + 1)) other))
          none_left
        ∙ other_count other

-- Retaining a reference other than 0, whose count is below the last 32-bit one, adds one to its
-- count, and leaves all other counts; a release after it succeeds and brings every count back to
-- what it was.
pub release_ref-retain_ref :
    (t : Roots) (ref : ℕ)
    → ref ≢ 0
    → ref_count t ref < 2 ^ 32 - 1
    → (ref_count (retain_ref t ref).0 ref ≡ ref_count t ref + 1)
      × ((other : ℕ) → other ≢ ref → ref_count (retain_ref t ref).0 other ≡ ref_count t other)
      × ((t'' : Roots) × (release_ref (retain_ref t ref).0 ref ≡ ok t'')
          × ((other : ℕ) → ref_count t'' other ≡ ref_count t other))
unfolding ref_count retain_ref
release_ref-retain_ref t ref nz few =
    let some_ref : (ref == 0) ≡ false = ground (arith, nz) in
    let count = or_zero (count_of t ref) in
    let few' : count < 2 ^ 32 - 1 = rw (ref_count, some_ref) at few in
    let small : (count + 1) % 2 ^ 32 ≡ count + 1 = omega (arith, few') in
    let (t'', done, back) = released t ref count refl nz in
    let same : (ref == ref) ≡ true = (==_iff ref ref).1 refl in
    rw (retain_ref, ref_count, some_ref, small)
      (
        counts t ref (count + 1) ref ∙ rw same refl,
        (λ other ne.
            let apart : (ref == other) ≡ false = ground (arith, ne) in
            ap (λ x. if other == 0 then 0 else x) (counts t ref (count + 1) other ∙ rw apart refl)),
        (t'', done, λ other. ap (λ x. if other == 0 then 0 else x) (back other)),
      )
