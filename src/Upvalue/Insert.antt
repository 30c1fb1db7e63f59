-- ===== src/Upvalue/Insert.antt =====
-- A new open upvalue takes its place in the list of its thread.
use vex_lua.Base.{
  ℕ, ◌≤◌, ◌<◌, ◌≡◌, ◌≢◌, refl, ◌∙◌, sym, List, [], ◌∷◌, true, false, Bool-cases, ==_iff, inl, inr,
  ltb, ◌==◌, if◌then◌else◌, ok, arith,
}
use vex_lua.State.Thread.{ThreadState}
use vex_lua.Upvalue.Object.{Node, is_open, new_node, state_open}
use vex_lua.Upvalue.Manager.{ObjectOps}
use vex_lua.Upvalue.Opened.{Open}
use vex_lua.Upvalue.Find.{Lacks}
use vex_lua.Upvalue.Place.{place, insert, Above, apart, place-Below, place-previous}
use vex_lua.Upvalue.Close.{Open-frame, SameBelow}

-- An upvalue after `previous` or `current` was linked to a new one.
abbrev pub next_linked : ℕ → ℕ → ℕ → Node → Node
next_linked previous ref r n = record n { next_open = if r == previous then ref else n.next_open }

abbrev pub previous_linked : ℕ → ℕ → ℕ → Node → Node
previous_linked current ref r n = record n { prev_open = if r == current then ref else n.prev_open }

abbrev pub linked : ℕ → ℕ → ℕ → ℕ → Node → Node
linked previous current ref r n = previous_linked current ref r (next_linked previous ref r n)

abbrev pub fresh_node : ThreadState → ℕ → ℕ → ℕ → Node
fresh_node t slot previous current = record (new_node state_open t.id slot) {
  prev_open = previous;
  next_open = current;
}

module _ {H : Type 0} (ops : ObjectOps H) where
  -- The heap with the new upvalue between its neighbours.
  abbrev pub IsLinked : H → H → ThreadState → ℕ → ℕ → ℕ → ℕ → Type 0
  IsLinked h h' t slot previous current ref =
      (ref ≢ 0)
      × (ops.object h' ref ≡ ok (fresh_node t slot previous current))
      × ((r : ℕ) (n : Node)
          → r ≢ 0
          → ops.object h r ≡ ok n
          → ops.object h' r ≡ ok (linked previous current ref r n))

  linked-SameBelow :
      (h h' : H) (t : ThreadState) (slot previous current ref bound : ℕ)
      → IsLinked h h' t slot previous current ref
      → Above ops h previous bound
      → Above ops h current bound
      → SameBelow ops h h' bound
  linked-SameBelow h h' t slot previous current ref bound (nz, new, old) before after r n ne at lt =
      let not_previous : (r == previous) ≡ false =
        ground (arith, apart ops h previous r bound before (inr (n, at, lt)) ne) in
      let not_current : (r == current) ≡ false =
        ground (arith, apart ops h current r bound after (inr (n, at, lt)) ne) in
      old r n ne at ∙ rw (not_previous, not_current) refl

  raise :
      (h : H) (link bound bound' : ℕ)
      → bound' ≤ bound
      → Above ops h link bound
      → Above ops h link bound'
  raise h link bound bound' le (inl none) = inl none
  raise h link bound bound' le (inr (n, at, above)) = inr (n, at, omega (arith, le, above))

  -- The new upvalue comes first.
  first-Open :
      (h h' : H) (t : ThreadState) (slot ref p bound r s : ℕ) (node : Node) (rs : List (ℕ × ℕ))
      → r ≢ 0
      → ops.object h r ≡ ok node
      → is_open node.state ≡ true
      → node.slot_address ≡ s
      → s < slot
      → slot < bound
      → Open ops h r node.next_open s rs
      → Above ops h p bound
      → IsLinked h h' t slot p r ref
      → Open ops h' p ref bound ((ref, slot) ∷ (r, s) ∷ rs)
  unfolding Open new_node
  first-Open h h' t slot ref p bound r s node rs nz there opened here past lt rest before
        (some_ref, new, old) =
      let not_previous : (r == p) ≡ false = ground (
        arith,
        apart ops h p r bound before (inr (node, there, omega (arith, here, past, lt))) nz,
      ) in
      let same : (r == r) ≡ true = (==_iff r r).1 refl in
      let frame =
        linked-SameBelow h h' t slot p r ref s (some_ref, new, old)
          (raise h p bound s (omega (arith, past, lt)) before)
          (inr (node, there, omega (arith, here))) in
      let after : Open ops h' r (linked p r ref r node).next_open s rs =
        rw not_previous (Open-frame ops h h' r node.next_open s rs frame rest) in
      let back : (linked p r ref r node).prev_open ≡ ref = rw same refl in
      (
        refl,
        some_ref,
        (
          fresh_node t slot p r,
          new,
          refl,
          refl,
          refl,
          lt,
          (refl, nz, (linked p r ref r node, old r node nz there, opened, here, back, past, after)),
        ),
      )

  -- The new upvalue comes after the first one.
  later-Open :
      (h h' : H) (t : ThreadState) (slot ref p c bound r s : ℕ) (node : Node) (rs : List (ℕ × ℕ))
      → c ≡ r
      → r ≢ 0
      → ops.object h r ≡ ok node
      → is_open node.state ≡ true
      → node.slot_address ≡ s
      → node.prev_open ≡ p
      → s < bound
      → Open ops h r node.next_open s rs
      → slot < s
      → Above ops h p bound
      → IsLinked h h' t slot (place r rs slot).0 (place r rs slot).1 ref
      → (slot < s
          → Above ops h r s
          → Open ops h' r
              (if r == (place r rs slot).0 then ref else node.next_open)
              s
              (insert ref slot rs))
      → Open ops h' p
          (if p == (place r rs slot).0 then ref else c)
          bound
          ((r, s) ∷ insert ref slot rs)
  unfolding Open
  later-Open h h' t slot ref p c bound r s node rs at nz there opened here back lt rest below before
        (some_ref, new, old) next =
      let (ne, (m, at_m, le)) =
        place-previous ops h r node.next_open s slot node rs nz there here rest in
      let off =
        apart ops h p (place r rs slot).0 bound before (inr (m, at_m, omega (arith, le, lt))) ne in
      let not_previous : (p == (place r rs slot).0) ≡ false = ground (arith, off) in
      let not_current : (r == (place r rs slot).1) ≡ false = ground (
        arith,
        λ (same : r ≡ (place r rs slot).1).
            apart ops h r (place r rs slot).1 slot (inr (node, there, omega (arith, here, below)))
              (place-Below ops h r node.next_open s slot rs rest) (λ zero. nz (same ∙ zero))
              (sym same),
      ) in
      rw not_previous (
        at,
        nz,
        (
          linked (place r rs slot).0 (place r rs slot).1 ref r node,
          old r node nz there,
          opened,
          here,
          rw not_current back,
          lt,
          next below (inr (node, there, omega (arith, here))),
        ),
      )

  pub inserted-Open :
      (h h' : H) (t : ThreadState) (slot ref p c bound : ℕ) (rs : List (ℕ × ℕ))
      → Open ops h p c bound rs
      → Lacks rs slot
      → slot < bound
      → Above ops h p bound
      → IsLinked h h' t slot (place p rs slot).0 (place p rs slot).1 ref
      → Open ops h' p (if p == (place p rs slot).0 then ref else c) bound (insert ref slot rs)
  unfolding Open new_node
  inserted-Open h h' t slot ref p c bound [] o lacks lt before (nz, new, old) =
      let same : (p == p) ≡ true = (==_iff p p).1 refl in
      rw same (refl, nz, (fresh_node t slot p 0, new, refl, refl, refl, lt, refl))
  inserted-Open h h' t slot ref p c bound ((r, s) ∷ rs)
        (at, nz, (node, there, opened, here, back, lt', rest)) (ne, lacks) lt before l =
      elim (Bool-cases (ltb s slot)) [
        | inl past ↦
            (let same : (p == p) ≡ true = (==_iff p p).1 refl in
              let l' : IsLinked h h' t slot p r ref = rw past at l in
              rw (past, same)
                (first-Open h h' t slot ref p bound r s node rs nz there opened here
                  (ground (arith, past)) lt rest before l'))
        | inr earlier ↦
            (let l' : IsLinked h h' t slot (place r rs slot).0 (place r rs slot).1 ref =
                rw earlier at l in
              rw earlier (
                later-Open h h' t slot ref p c bound r s node rs at nz there opened here back lt'
                  rest (ground (arith, earlier, ne)) before l'
                  (λ below above.
                    inserted-Open h h' t slot ref r node.next_open s rs rest lacks below above l')))
      ]
