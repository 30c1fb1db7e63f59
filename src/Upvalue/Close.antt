-- ===== src/Upvalue/Close.antt =====
-- Closing keeps the values of upvalues and leaves the list of the ones below.
use vex_lua.Base.{
  ℕ, ◌≤◌, ◌<◌, ◌≡◌, ◌≢◌, refl, ap, subst, ◌∙◌, sym, List, [], ◌∷◌, true, false, Bool-cases, ==_iff,
  inl, inr, ◌==◌, if◌then◌else◌, Result, ok, >>=-eq-ok, arith, ok_injective, ok_pair,
}
use vex_lua.State.Thread.{ThreadState, with_head, value_at_address}
use vex_lua.Upvalue.Object.{Node, UpvalueError, is_open, is_closed}
use vex_lua.Upvalue.Manager.{ObjectOps, of_stack, closed_node, set_next, set_previous, close_one}
use vex_lua.Upvalue.Opened.{ObjectLaws, Open}

-- What an upvalue of the thread reads as.
abbrev pub value_of : ThreadState → Node → Result UpvalueError ℕ
value_of t node =
    if is_closed node.state
    then ok node.closed_value
    else of_stack (value_at_address t node.slot_address)

open_value :
    (t : ThreadState) (node : Node) (value : ℕ)
    → is_open node.state ≡ true
    → of_stack (value_at_address t node.slot_address) ≡ ok value
    → value_of t node ≡ ok value
open_value t node value opened read = rw (not_closed node opened) read
  where
    not_closed : (n : Node) → is_open n.state ≡ true → is_closed n.state ≡ false
    not_closed n h = ground (arith, h)

module _ {H : Type 0} (ops : ObjectOps H) where
  -- The upvalue at a reference is closed.
  abbrev pub IsClosedAt : H → ℕ → Type 0
  IsClosedAt h ref = (node : Node) × (ops.object h ref ≡ ok node) × (is_closed node.state ≡ true)

  -- Every upvalue is still there, with its thread and its value, and is closed if it was.
  abbrev pub Keeps : H → H → ThreadState → Type 0
  Keeps h h' t =
      (ref : ℕ) (node : Node)
      → ops.object h ref ≡ ok node
      → (node' : Node) × (ops.object h' ref ≡ ok node')
        × (node'.thread_id ≡ node.thread_id)
        × (value_of t node' ≡ value_of t node)
        × (is_closed node.state ≡ true → is_closed node'.state ≡ true)

  pub Keeps-trans : (h₁ h₂ h₃ : H) (t : ThreadState) → Keeps h₁ h₂ t → Keeps h₂ h₃ t → Keeps h₁ h₃ t
  Keeps-trans h₁ h₂ h₃ t k l ref node there =
      let (n₂, there₂, id₂, same₂, closed₂) = k ref node there in
      let (n₃, there₃, id₃, same₃, closed₃) = l ref n₂ there₂ in
      (n₃, there₃, id₃ ∙ id₂, same₃ ∙ same₂, λ c. closed₃ (closed₂ c))

  pub kept-IsClosedAt :
      (h h' : H) (t : ThreadState) (ref : ℕ) → Keeps h h' t → IsClosedAt h ref → IsClosedAt h' ref
  kept-IsClosedAt h h' t ref k (node, there, closed) =
      let (node', there', id, same, stays) = k ref node there in (node', there', stays closed)

  -- The upvalues for slots below a bound are as they were.
  abbrev pub SameBelow : H → H → ℕ → Type 0
  SameBelow h h' bound =
      (ref : ℕ) (node : Node)
      → ref ≢ 0
      → ops.object h ref ≡ ok node
      → node.slot_address < bound
      → ops.object h' ref ≡ ok node

  pub Open-frame :
      (h h' : H) (previous current bound : ℕ) (rs : List (ℕ × ℕ))
      → SameBelow h h' bound
      → Open ops h previous current bound rs
      → Open ops h' previous current bound rs
  unfolding Open
  Open-frame h h' previous current bound [] same o = o
  Open-frame h h' previous current bound ((r, s) ∷ rs) same
        (at, nz, (node, there, opened, here, back, lt, rest)) =
      (
        at,
        nz,
        (
          node,
          same r node nz there (omega (arith, here, lt)),
          opened,
          here,
          back,
          lt,
          Open-frame h h' r node.next_open s rs
              (λ ref n zero found below. same ref n zero found (omega (arith, below, lt))) rest,
        ),
      )

module _ {H : Type 0} (ops : ObjectOps H) (laws : ObjectLaws ops) where
  -- A write that keeps the thread and the value of the upvalue that was there.
  write-Keeps :
      (h h' : H) (t : ThreadState) (ref : ℕ) (old new : Node)
      → ops.object h ref ≡ ok old
      → new.thread_id ≡ old.thread_id
      → value_of t new ≡ value_of t old
      → (is_closed old.state ≡ true → is_closed new.state ≡ true)
      → ops.write_object h ref new ≡ ok h'
      → Keeps ops h h' t
  write-Keeps h h' t ref old new there id same stays eq r node at = elim (Bool-cases (r == ref)) [
    | inl here ↦
        (let e : r ≡ ref = (==_iff r ref).0 here in
          let was : old ≡ node = ok_injective (sym there ∙ ap (ops.object h) (sym e) ∙ at) in
          (
            new,
            ap (ops.object h') e ∙ laws.written h h' ref new eq,
            id ∙ ap (λ n. n.thread_id) was,
            same ∙ ap (value_of t) was,
            λ c. stays (subst (λ n. is_closed n.state ≡ true) (sym was) c),
          ))
    | inr away ↦ (
      node,
      laws.unwritten h h' ref new r node eq (λ e. ground (arith, away, e)) at,
      refl,
      refl,
      λ c. c,
    )
  ]

  -- A write to an upvalue for a slot at or above the bound leaves the ones below it.
  write-SameBelow :
      (h h' : H) (ref bound : ℕ) (old new : Node)
      → ops.object h ref ≡ ok old
      → bound ≤ old.slot_address
      → ops.write_object h ref new ≡ ok h'
      → SameBelow ops h h' bound
  write-SameBelow h h' ref bound old new there above eq r node nz at below =
      laws.unwritten h h' ref new r node eq (λ e. clash r e node at below) at
    where
      clash :
          (r : ℕ)
          → r ≡ ref
          → (node : Node) → ops.object h r ≡ ok node
          → node.slot_address < bound
          → ⊥
      clash r e node at below =
          let same : ok old ≡ ok node = sym there ∙ ap (ops.object h) (sym e) ∙ at in
          omega (arith, ap (λ n. n.slot_address) (ok_injective same), above, below)

  set_previous-Open :
      (h h' : H) (t : ThreadState) (previous next ref bound : ℕ) (rs : List (ℕ × ℕ))
      → Open ops h previous next bound rs
      → set_previous ops h next ref ≡ ok h'
      → Keeps ops h h' t × Open ops h' ref next bound rs
  unfolding set_previous Open
  set_previous-Open h h' t previous next ref bound [] o eq =
      let nil : (next == 0) ≡ true = (==_iff next 0).1 o in
      let same : h ≡ h' = ok_injective (rw (set_previous, nil) at eq) in
      (subst (λ x. Keeps ops h x t) same (λ r n at. (n, at, refl, refl, λ c. c)), o)
  set_previous-Open h h' t previous next ref bound ((r, s) ∷ rs)
        (at, nz, (node, there, opened, here, back, lt, rest)) eq =
      let some_node : (next == 0) ≡ false = ground (arith, at, nz) in
      let (found, read, wrote) =
        >>=-eq-ok (ops.object h next) _ (rw (set_previous, some_node) at eq) in
      let same : node ≡ found = ok_injective (sym there ∙ ap (ops.object h) (sym at) ∙ read) in
      let wrote' =
        subst (λ x. ops.write_object h x (record found { prev_open = ref }) ≡ ok h') at wrote in
      let wrote'' =
        subst (λ n. ops.write_object h r (record n { prev_open = ref }) ≡ ok h') (sym same)
          wrote' in
      (
        write-Keeps h h' t r node (record node { prev_open = ref }) there refl refl (λ c. c)
            wrote'',
        (
          at,
          nz,
          (
            record node { prev_open = ref },
            laws.written h h' r _ wrote'',
            opened,
            here,
            refl,
            lt,
            Open-frame ops h h' r node.next_open s rs
                (write-SameBelow h h' r s node (record node { prev_open = ref }) there
                  (omega (arith, here)) wrote'')
                rest,
          ),
        ),
      )

  barrier-Keeps :
      (h h' : H) (t : ThreadState) (ref value : ℕ)
      → ops.write_barrier h ref value ≡ ok h'
      → Keeps ops h h' t
  barrier-Keeps h h' t ref value eq r n at =
      (n, laws.unmoved h h' ref value r n eq at, refl, refl, λ c. c)

  -- Closing the head of the list closes it, keeps every value and leaves the rest of the list.
  pub close_one-head :
      (h h' : H) (t t' : ThreadState) (current : ℕ) (node : Node) (rs : List (ℕ × ℕ))
      → ops.object h current ≡ ok node
      → is_open node.state ≡ true
      → Open ops h current node.next_open node.slot_address rs
      → close_one ops h t 0 current node ≡ ok (h', t')
      → Keeps ops h h' t
        × IsClosedAt ops h' current
        × Open ops h' 0 node.next_open node.slot_address rs
        × (t' ≡ with_head t node.next_open)
  unfolding close_one set_next
  close_one-head h h' t t' current node rs there opened o eq =
      let (value, read, r₁) = >>=-eq-ok (of_stack (value_at_address t node.slot_address)) _ eq in
      let (h₁, wrote, r₂) = >>=-eq-ok (ops.write_object h current (closed_node node value)) _ r₁ in
      let (h₂, barred, r₃) = >>=-eq-ok (ops.write_barrier h₁ current value) _ r₂ in
      let (h₄, linked, last) = >>=-eq-ok (set_previous ops h₂ node.next_open 0) _ r₃ in
      let (same, same') = ok_pair last in
      let kept₁ =
        write-Keeps h h₁ t current node (closed_node node value) there refl
          (sym (open_value t node value opened read)) (λ c. refl) wrote in
      let closed₁ : IsClosedAt ops h₁ current =
        (closed_node node value, laws.written h h₁ current (closed_node node value) wrote, refl) in
      let o₁ =
        Open-frame ops h h₁ current node.next_open node.slot_address rs
          (write-SameBelow h h₁ current node.slot_address node (closed_node node value) there
            (omega arith) wrote)
          o in
      let o₂ =
        Open-frame ops h₁ h₂ current node.next_open node.slot_address rs
          (λ r n nz at below. laws.unmoved h₁ h₂ current value r n barred at) o₁ in
      let (kept₃, o₃) =
        set_previous-Open h₂ h₄ t current node.next_open 0 node.slot_address rs o₂ linked in
      (
        subst (λ x. Keeps ops h x t) same
            (Keeps-trans ops h h₂ h₄ t
              (Keeps-trans ops h h₁ h₂ t kept₁ (barrier-Keeps h₁ h₂ t current value barred)) kept₃),
        subst (λ x. IsClosedAt ops x current) same
            (kept-IsClosedAt ops h₁ h₄ t current
              (Keeps-trans ops h₁ h₂ h₄ t (barrier-Keeps h₁ h₂ t current value barred) kept₃)
              closed₁),
        subst (λ x. Open ops x 0 node.next_open node.slot_address rs) same o₃,
        sym same',
      )
