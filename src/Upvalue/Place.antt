-- ===== src/Upvalue/Place.antt =====
-- The place of a new upvalue in an open list, and the list with it.
use vex_lua.Base.{
  ℕ, zero, suc, ◌≤◌, ◌<◌, ◌≡◌, ◌≢◌, refl, ap, subst, ◌∙◌, sym, List, [], ◌∷◌, length, true, false,
  Bool-cases, ==_iff, ◌⊎◌, inl, inr, ltb, ◌==◌, if◌then◌else◌, Result, ok, arith,
}
use vex_lua.Upvalue.Object.{Node, UpvalueError}
use vex_lua.Upvalue.Manager.{ObjectOps, between, find_from}
use vex_lua.Upvalue.Opened.{Open}
use vex_lua.Upvalue.Find.{Lacks}

-- The links around the place, from the link before the list on.
abbrev pub place : ℕ → List (ℕ × ℕ) → ℕ → ℕ × ℕ
place previous [] slot = (previous, 0)
place previous ((r, s) ∷ rest) slot = if ltb s slot then (previous, r) else place r rest slot

abbrev pub insert : ℕ → ℕ → List (ℕ × ℕ) → List (ℕ × ℕ)
insert ref slot [] = (ref, slot) ∷ []
insert ref slot ((r, s) ∷ rest) =
    if ltb s slot then (ref, slot) ∷ (r, s) ∷ rest else (r, s) ∷ insert ref slot rest

module _ {H : Type 0} (ops : ObjectOps H) where
  -- The link is none, or an upvalue for a slot at or above the bound.
  abbrev pub Above : H → ℕ → ℕ → Type 0
  Above h link bound =
      (link ≡ 0) ⊎ ((n : Node) × (ops.object h link ≡ ok n) × (bound ≤ n.slot_address))

  -- The link is none, or an upvalue for a slot below the bound.
  abbrev pub Below : H → ℕ → ℕ → Type 0
  Below h link bound =
      (link ≡ 0) ⊎ ((n : Node) × (ops.object h link ≡ ok n) × (n.slot_address < bound))

  pub apart : (h : H) (a b bound : ℕ) → Above h a bound → Below h b bound → b ≢ 0 → b ≢ a
  apart h a b bound (inl none) below nz = λ same. nz (same ∙ none)
  apart h a b bound (inr above) (inl none) nz = absurd (nz none)
  apart h a b bound (inr (n, at, le)) (inr (m, there, lt)) nz =
      λ same. clash (sym there ∙ ap (ops.object h) same ∙ at)
    where
      clash : ◌≡◌ {A = Result UpvalueError Node} (ok m) (ok n) → ⊥
      clash eq = let e : m ≡ n = cc in omega (arith, ap (λ x. x.slot_address) e, le, lt)

  pub place-Below :
      (h : H) (previous current bound slot : ℕ) (rs : List (ℕ × ℕ))
      → Open ops h previous current bound rs
      → Below h (place previous rs slot).1 slot
  unfolding Open
  place-Below h previous current bound slot [] o = inl refl
  place-Below h previous current bound slot ((r, s) ∷ rs)
        (at, nz, (node, there, opened, here, back, lt, rest)) =
      elim (Bool-cases (ltb s slot)) [
        | inl past ↦ rw past (inr (node, there, ground (arith, past, here)))
        | inr before ↦ rw before (place-Below h r node.next_open s slot rs rest)
      ]

  -- The link before the place, in a list after an upvalue.
  pub place-previous :
      (h : H) (previous current bound slot : ℕ) (n : Node) (rs : List (ℕ × ℕ))
      → previous ≢ 0
      → ops.object h previous ≡ ok n
      → n.slot_address ≡ bound
      → Open ops h previous current bound rs
      → ((place previous rs slot).0 ≢ 0)
        × ((m : Node) × (ops.object h (place previous rs slot).0 ≡ ok m) × (m.slot_address ≤ bound))
  unfolding Open
  place-previous h previous current bound slot n [] nz at same o =
      (nz, (n, at, omega (arith, same)))
  place-previous h previous current bound slot n ((r, s) ∷ rs) nz at same
        (to, nz', (node, there, opened, here, back, lt, rest)) =
      elim (Bool-cases (ltb s slot)) [
        | inl past ↦ rw past (nz, (n, at, omega (arith, same)))
        | inr before ↦ rw before (
            let (ne, (m, found, le)) =
              place-previous h r node.next_open s slot node rs nz' there here rest in
            (ne, (m, found, omega (arith, le, lt))))
      ]

  pub find_from-place :
      (steps : ℕ) (h : H) (slot previous current bound : ℕ) (rs : List (ℕ × ℕ))
      → Open ops h previous current bound rs
      → Lacks rs slot
      → length rs < steps
      → find_from ops steps h slot previous current
        ≡ ok (between (place previous rs slot).0 (place previous rs slot).1)
  unfolding find_from Open
  find_from-place zero h slot previous current bound rs o lacks few = absurd (omega (arith, few))
  find_from-place (suc steps) h slot previous current bound [] o lacks few =
      let nil : (current == 0) ≡ true = (==_iff current 0).1 o in rw (find_from, nil) refl
  find_from-place (suc steps) h slot previous current bound ((r, s) ∷ rs)
        (at, nz, (node, there, opened, here, back, lt, rest)) (ne, lacks) few =
      let some_node : (current == 0) ≡ false = ground (arith, at, nz) in
      let there' : ops.object h current ≡ ok node = ap (ops.object h) at ∙ there in
      let other : (node.slot_address == slot) ≡ false = ground (arith, here, ne) in
      elim (Bool-cases (ltb s slot)) [
        | inl past ↦
            (let past' : ltb node.slot_address slot ≡ true =
                subst (λ n. ltb n slot ≡ true) (sym here) past in
              rw (find_from, some_node, there', opened, other, past', past)
                (ap (λ c. ok (between previous c)) at))
        | inr before ↦
            (let before' : ltb node.slot_address slot ≡ false =
                subst (λ n. ltb n slot ≡ false) (sym here) before in
              rw (find_from, some_node, there', opened, other, before', before)
                (ap (λ c. find_from ops steps h slot c node.next_open) at
                  ∙ find_from-place steps h slot r node.next_open s rs rest lacks
                      (omega (arith, few))))
      ]
