-- ===== src/Upvalue/Find.antt =====
-- The search of the open list ends, and finds a slot's upvalue if there is one.
use vex_lua.Base.{
  ℕ, zero, suc, ◌≤◌, ◌<◌, ◌≡◌, ◌≢◌, ap, subst, ◌∙◌, sym, List, [], ◌∷◌, length, true, false,
  Bool-cases, ==_iff, ◌⊎◌, inl, inr, ltb, ◌==◌, Result, ok, err, arith,
}
use vex_lua.Upvalue.Object.{UpvalueError}
use vex_lua.Upvalue.Manager.{ObjectOps, Spot, found, between, find_from}
use vex_lua.Upvalue.Opened.{Open}

-- The upvalue stands in the list, for the slot.
abbrev pub Stands : List (ℕ × ℕ) → ℕ → ℕ → Type 0
Stands [] ref slot = ⊥
Stands ((r, s) ∷ rest) ref slot = ((r ≡ ref) × (s ≡ slot)) ⊎ Stands rest ref slot

-- No upvalue of the list is for the slot.
abbrev pub Lacks : List (ℕ × ℕ) → ℕ → Type 0
Lacks [] slot = Unit {0}
Lacks ((r, s) ∷ rest) slot = (s ≢ slot) × Lacks rest slot

-- The search's result: the slot's upvalue, or a place in a list that has none for it.
abbrev pub IsSpot : List (ℕ × ℕ) → ℕ → Result UpvalueError Spot → Type 0
IsSpot rs slot (ok (found ref)) = Stands rs ref slot
IsSpot rs slot (ok (between previous current)) = Lacks rs slot
IsSpot rs slot (err e) = ⊥

later-IsSpot :
    (rs : List (ℕ × ℕ)) (r s slot : ℕ) (result : Result UpvalueError Spot)
    → s ≢ slot
    → IsSpot rs slot result
    → IsSpot ((r, s) ∷ rs) slot result
later-IsSpot rs r s slot (ok (found ref)) ne v = inr v
later-IsSpot rs r s slot (ok (between p c)) ne v = (ne, v)
later-IsSpot rs r s slot (err e) ne v = v

module _ {H : Type 0} (ops : ObjectOps H) where
  -- Slots below the bound are not the slot, if the bound is not above it.
  below-Lacks :
      (h : H) (previous current bound slot : ℕ) (rs : List (ℕ × ℕ))
      → Open ops h previous current bound rs
      → bound ≤ slot
      → Lacks rs slot
  unfolding Open
  below-Lacks h previous current bound slot [] o le = tt
  below-Lacks h previous current bound slot ((r, s) ∷ rs)
        (at, nz, (node, there, opened, here, back, lt, rest)) le =
      (
        (λ same. omega (arith, same, lt, le)),
        below-Lacks h r node.next_open s slot rs rest (omega (arith, lt, le)),
      )

  -- The search for a slot's upvalue, from the head of an open list in order, with more steps than
  -- the list has upvalues, ends without an error: at an upvalue of the list for the slot, or, where
  -- the list has none for the slot, between two links.
  pub find_from-IsSpot :
      (steps : ℕ) (h : H) (slot previous current bound : ℕ) (rs : List (ℕ × ℕ))
      → Open ops h previous current bound rs
      → length rs < steps
      → IsSpot rs slot (find_from ops steps h slot previous current)
  unfolding find_from Open
  find_from-IsSpot zero h slot previous current bound rs o few = absurd (omega arith)
  find_from-IsSpot (suc steps) h slot previous current bound [] o few =
      let nil : (current == 0) ≡ true = (==_iff current 0).1 o in rw (find_from, nil) tt
  find_from-IsSpot (suc steps) h slot previous current bound ((r, s) ∷ rs)
        (at, nz, (node, there, opened, here, back, lt, rest)) few =
      let some_node : (current == 0) ≡ false = ground (arith, at, nz) in
      let there' : ops.object h current ≡ ok node = ap (ops.object h) at ∙ there in
      elim (Bool-cases (node.slot_address == slot)) [
        | inl same ↦
            rw (find_from, some_node, there', opened, same)
              (inl (sym at, sym here ∙ (==_iff node.slot_address slot).0 same))
        | inr other ↦
            (let ne : s ≢ slot = λ same. ground (arith, other, here, same) in
              elim (Bool-cases (ltb node.slot_address slot)) [
                | inl past ↦
                    rw (find_from, some_node, there', opened, other, past)
                      (
                        ne,
                        below-Lacks h r node.next_open s slot rs rest (ground (arith, past, here)),
                      )
                | inr before ↦
                    rw (find_from, some_node, there', opened, other, before)
                      (later-IsSpot rs r s slot (find_from ops steps h slot current node.next_open)
                        ne
                        (find_from-IsSpot steps h slot current node.next_open s rs
                          (subst (λ c. Open ops h c node.next_open s rs) (sym at) rest)
                          (omega (arith, few))))
              ])
      ]
