-- ===== src/Upvalue/Create.antt =====
-- Finding or creating the open upvalue of a slot.
use vex_lua.Base.{
  ℕ, ◌<◌, ◌≡◌, ◌≢◌, refl, ap, subst, ◌∙◌, sym, List, [], ◌∷◌, length, true, false, Bool-cases,
  ==_iff, ◌⊎◌, inl, inr, ltb, ◌==◌, if◌then◌else◌, Result, ok, >>=-eq-ok, arith, ok_injective,
  ok_pair,
}
use vex_lua.State.Thread.{ThreadState, with_head, value_at_address}
use vex_lua.Upvalue.Object.{Node, new_node, UpvalueError}
use vex_lua.Upvalue.Manager.{
  ObjectOps, Spot, found, between, of_stack, set_next, set_previous, create_between, find_from,
  find_or_create_open,
}
use vex_lua.Upvalue.Opened.{ObjectLaws, Open}
use vex_lua.Upvalue.Find.{Lacks, Stands, IsSpot, find_from-IsSpot}
use vex_lua.Upvalue.Place.{place, insert, Below, place-Below, place-previous, find_from-place}
use vex_lua.Upvalue.Insert.{IsLinked, inserted-Open, next_linked, previous_linked, fresh_node}

spot_links :
    {a b c d : ℕ}
    → ◌≡◌ {A = Result UpvalueError Spot} (ok (between a b)) (ok (between c d))
    → (a ≡ c) × (b ≡ d)
spot_links eq = (cc, cc)

module _ {H : Type 0} (ops : ObjectOps H) where
  -- The slot's upvalue was there, and nothing changes, or it has its place in the list.
  abbrev pub IsObtained : H → H → ThreadState → ThreadState → ℕ → ℕ → ℕ → List (ℕ × ℕ) → Type 0
  IsObtained h h' t t' slot ref bound rs =
      (Stands rs ref slot × (h' ≡ h) × (t' ≡ t))
      ⊎ (Lacks rs slot
          × Open ops h' 0 t'.open_upvalue_head bound (insert ref slot rs)
          × (t' ≡ with_head t t'.open_upvalue_head)
          × ((n : Node) × (ops.object h' ref ≡ ok n) × (n.thread_id ≡ t.id)))

module _ {H : Type 0} (ops : ObjectOps H) (laws : ObjectLaws ops) where
  -- A write to one upvalue, seen at each.
  written-at :
      (h h' : H) (ref r : ℕ) (old new n : Node)
      → ops.object h ref ≡ ok old
      → ops.write_object h ref new ≡ ok h'
      → ops.object h r ≡ ok n
      → ((r == ref) ≡ true × (ops.object h' r ≡ ok new) × (old ≡ n))
        ⊎ ((r == ref) ≡ false × (ops.object h' r ≡ ok n))
  written-at h h' ref r old new n was wrote at = elim (Bool-cases (r == ref)) [
    | inl here ↦
        (let e : r ≡ ref = (==_iff r ref).0 here in
          inl (
            here,
            ap (ops.object h') e ∙ laws.written h h' ref new wrote,
            ok_injective (sym was ∙ ap (ops.object h) (sym e) ∙ at),
          ))
    | inr away ↦ inr (away, laws.unwritten h h' ref new r n wrote (λ e. ground (arith, away, e)) at)
  ]

  set_next_lem :
      (h h' : H) (t t' : ThreadState) (previous ref : ℕ)
      → set_next ops h t previous ref ≡ ok (h', t')
      → (t' ≡ with_head t (if 0 == previous then ref else t.open_upvalue_head))
        × ((r : ℕ) (n : Node)
            → r ≢ 0
            → ops.object h r ≡ ok n
            → ops.object h' r ≡ ok (next_linked previous ref r n))
  unfolding set_next
  set_next_lem h h' t t' previous ref eq = elim (Bool-cases (previous == 0)) [
    | inl none ↦
        (let (same, same') = ok_pair (rw (set_next, none) at eq) in
          let first : (0 == previous) ≡ true = ground (arith, none) in
          (
            rw first (sym same'),
            λ r n nz at.
                let other : (r == previous) ≡ false = ground (arith, none, nz) in
                rw other (ap (λ x. ops.object x r) (sym same) ∙ at),
          ))
    | inr some_node ↦
        (let (node, read, rest) =
            >>=-eq-ok (ops.object h previous) _ (rw (set_next, some_node) at eq) in
          let (h₁, wrote, last) =
            >>=-eq-ok (ops.write_object h previous (record node { next_open = ref })) _ rest in
          let (same, same') = ok_pair last in
          let first : (0 == previous) ≡ false = ground (arith, some_node) in
          (
            rw first (sym same'),
            λ r n nz at.
                subst (λ x. ops.object x r ≡ ok (next_linked previous ref r n)) same
                  (elim (written-at h h₁ previous r node (record node { next_open = ref }) n read
                    wrote at) [
                      | inl (here, there, was) ↦
                          rw here (there ∙ ap (λ (x : Node). ok (record x { next_open = ref })) was)
                      | inr (away, there) ↦ rw away there
                    ]),
          ))
  ]

  set_previous_lem :
      (h h' : H) (current ref : ℕ)
      → set_previous ops h current ref ≡ ok h'
      → (r : ℕ) (n : Node) → r ≢ 0
      → ops.object h r ≡ ok n
      → ops.object h' r ≡ ok (previous_linked current ref r n)
  unfolding set_previous
  set_previous_lem h h' current ref eq r n nz at = elim (Bool-cases (current == 0)) [
    | inl none ↦
        (let same = ok_injective (rw (set_previous, none) at eq) in
          let other : (r == current) ≡ false = ground (arith, none, nz) in
          rw other (ap (λ x. ops.object x r) (sym same) ∙ at))
    | inr some_node ↦
        (let (node, read, wrote) =
            >>=-eq-ok (ops.object h current) _ (rw (set_previous, some_node) at eq) in
          elim (written-at h h' current r node (record node { prev_open = ref }) n read wrote at) [
            | inl (here, there, was) ↦
                rw here (there ∙ ap (λ (x : Node). ok (record x { prev_open = ref })) was)
            | inr (away, there) ↦ rw away there
          ])
  ]

  -- The link is none, or an upvalue.
  abbrev Present : H → ℕ → Type 0
  Present h link = (link ≡ 0) ⊎ ((n : Node) × (ops.object h link ≡ ok n))

  apart_new :
      (h h₁ : H) (ref link : ℕ)
      → Present h link
      → ref ≢ 0
      → ((r : ℕ) (n : Node) → ops.object h r ≡ ok n → (r ≢ ref) × (ops.object h₁ r ≡ ok n))
      → ref ≢ link
  apart_new h h₁ ref link (inl none) nz kept = λ e. nz (e ∙ none)
  apart_new h h₁ ref link (inr (n, at)) nz kept = λ e. (kept link n at).0 (sym e)

  links-IsLinked :
      (h h₁ h₂ h₃ : H) (t t₂ : ThreadState) (slot previous current ref : ℕ)
      → Present h previous
      → Present h current
      → ops.alloc_object h (fresh_node t slot previous current) ≡ ok (h₁, ref)
      → set_next ops h₁ t previous ref ≡ ok (h₂, t₂)
      → set_previous ops h₂ current ref ≡ ok h₃
      → IsLinked ops h h₃ t slot previous current ref
        × (t₂ ≡ with_head t (if 0 == previous then ref else t.open_upvalue_head))
  links-IsLinked h h₁ h₂ h₃ t t₂ slot previous current ref before after allocated next back =
      let (nz, new, kept) = laws.made h h₁ ref (fresh_node t slot previous current) allocated in
      let (head, linked_next) = set_next_lem h₁ h₂ t t₂ previous ref next in
      let not_previous : (ref == previous) ≡ false =
        ground (arith, apart_new h h₁ ref previous before nz kept) in
      let not_current : (ref == current) ≡ false =
        ground (arith, apart_new h h₁ ref current after nz kept) in
      (
        (
          nz,
          set_previous_lem h₂ h₃ current ref back ref _ nz
                (linked_next ref (fresh_node t slot previous current) nz new)
              ∙ rw (not_previous, not_current) refl,
          λ r n some_ref at.
              set_previous_lem h₂ h₃ current ref back r _ some_ref
                (linked_next r n some_ref (kept r n at).1),
        ),
        head,
      )

  create_between-IsLinked :
      (h h' : H) (t t' : ThreadState) (slot previous current ref : ℕ)
      → Present h previous
      → Present h current
      → create_between ops h t slot previous current ≡ ok (h', (t', ref))
      → IsLinked ops h h' t slot previous current ref
        × (t' ≡ with_head t (if 0 == previous then ref else t.open_upvalue_head))
  unfolding create_between
  create_between-IsLinked h h' t t' slot previous current ref before after eq =
      let ((h₁, ref₁), allocated, r₁) =
        >>=-eq-ok (ops.alloc_object h (fresh_node t slot previous current)) _ eq in
      let ((h₂, t₂), next, r₂) = >>=-eq-ok (set_next ops h₁ t previous ref₁) _ r₁ in
      let (h₃, back, last) = >>=-eq-ok (set_previous ops h₂ current ref₁) _ r₂ in
      let (same, rest) = ok_pair last in
      let same_ref = ap (λ x. x.1) rest in
      let (l, head) =
        links-IsLinked h h₁ h₂ h₃ t t₂ slot previous current ref₁ before after allocated next
          back in
      (
        subst (λ x. IsLinked ops h x t slot previous current ref) same
            (subst (λ y. IsLinked ops h h₃ t slot previous current y) same_ref l),
        sym (ap (λ x. x.0) rest)
            ∙ head
            ∙ ap (λ y. with_head t (if 0 == previous then y else t.open_upvalue_head)) same_ref,
      )

  Below-Present : (h : H) (link bound : ℕ) → Below ops h link bound → Present h link
  Below-Present h link bound (inl none) = inl none
  Below-Present h link bound (inr (n, at, lt)) = inr (n, at)

  place-Present :
      (h : H) (t : ThreadState) (bound slot : ℕ) (rs : List (ℕ × ℕ))
      → Open ops h 0 t.open_upvalue_head bound rs
      → Present h (place 0 rs slot).0
  unfolding Open
  place-Present h t bound slot [] o = inl refl
  place-Present h t bound slot ((r, s) ∷ rs) (at, nz, (node, there, opened, here, back, lt, rest)) =
      elim (Bool-cases (ltb s slot)) [
        | inl past ↦ rw past (inl refl)
        | inr before ↦ rw before (
            let (ne, (m, at_m, le)) =
              place-previous ops h r node.next_open s slot node rs nz there here rest in
            inr (m, at_m))
      ]

  thread_of_new :
      (t : ThreadState) (slot previous current : ℕ)
      → (fresh_node t slot previous current).thread_id ≡ t.id
  unfolding new_node
  thread_of_new t slot previous current = refl

  spot-IsObtained :
      (steps : ℕ) (h h' : H) (t t' : ThreadState) (slot ref bound : ℕ) (rs : List (ℕ × ℕ))
      (spot : Spot)
      → Open ops h 0 t.open_upvalue_head bound rs
      → slot < bound
      → length rs < steps
      → find_from ops steps h slot 0 t.open_upvalue_head ≡ ok spot
      → IsSpot rs slot (ok spot)
      → elim spot as (λ x. Result UpvalueError (H × (ThreadState × ℕ))) [
        | found r ↦ ok (h, (t, r))
        | between previous current ↦ create_between ops h t slot previous current
      ]
        ≡ ok (h', (t', ref))
      → IsObtained ops h h' t t' slot ref bound rs
  spot-IsObtained steps h h' t t' slot ref bound rs (found r) o lt few at stands eq =
      let (same, rest) = ok_pair eq in
      inl (
        subst (λ x. Stands rs x slot) (ap (λ x. x.1) rest) stands,
        sym same,
        sym (ap (λ x. x.0) rest),
      )
  spot-IsObtained steps h h' t t' slot ref bound rs (between previous current) o lt few at lacks
        eq =
      let placed =
        sym (find_from-place ops steps h slot 0 t.open_upvalue_head bound rs o lacks few) ∙ at in
      let (before, after) = spot_links placed in
      let eq' =
        subst (λ c. create_between ops h t slot previous c ≡ ok (h', (t', ref))) (sym after) eq in
      let eq'' =
        subst (λ p. create_between ops h t slot p (place 0 rs slot).1 ≡ ok (h', (t', ref)))
          (sym before) eq' in
      let here =
        create_between-IsLinked h h' t t' slot (place 0 rs slot).0 (place 0 rs slot).1 ref
          (place-Present h t bound slot rs o)
          (Below-Present h _ slot (place-Below ops h 0 t.open_upvalue_head bound slot rs o)) eq'' in
      let moved = ap (λ x. x.open_upvalue_head) here.1 in
      inr (
        lacks,
        subst (λ c. Open ops h' 0 c bound (insert ref slot rs)) (sym moved)
            (inserted-Open ops h h' t slot ref 0 t.open_upvalue_head bound rs o lacks lt (inl refl)
              here.0),
        here.1 ∙ ap (with_head t) (sym moved),
        (_, here.0.1, thread_of_new t slot (place 0 rs slot).0 (place 0 rs slot).1),
      )

  -- The upvalue for a slot below a bound, in a thread whose open list is in order below the bound,
  -- with more steps than the list has upvalues, when the heap does not fail: if the list has an
  -- upvalue for the slot, that one is returned and neither heap nor thread change; if not, the list
  -- with a new upvalue for the slot, linked and in order, is the thread's, the new upvalue has the
  -- thread's id, and nothing else of the thread changes.
  pub find_or_create_open-IsObtained :
      (steps : ℕ) (h h' : H) (t t' : ThreadState) (slot ref bound : ℕ) (rs : List (ℕ × ℕ))
      → Open ops h 0 t.open_upvalue_head bound rs
      → slot < bound
      → length rs < steps
      → find_or_create_open ops steps h t slot ≡ ok (h', (t', ref))
      → IsObtained ops h h' t t' slot ref bound rs
  unfolding find_or_create_open
  find_or_create_open-IsObtained steps h h' t t' slot ref bound rs o lt few eq =
      let (value, read, r₁) = >>=-eq-ok (of_stack (value_at_address t slot)) _ eq in
      let (spot, at, r₂) = >>=-eq-ok (find_from ops steps h slot 0 t.open_upvalue_head) _ r₁ in
      spot-IsObtained steps h h' t t' slot ref bound rs spot o lt few at
        (subst (λ x. IsSpot rs slot x) at
          (find_from-IsSpot ops steps h slot 0 t.open_upvalue_head bound rs o few))
        r₂
