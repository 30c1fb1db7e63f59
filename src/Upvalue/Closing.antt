-- ===== src/Upvalue/Closing.antt =====
-- Closing the upvalues at or above a slot: the loop over the open list.
use vex_lua.Base.{
  ℕ, zero, suc, ◌-◌, ◌^◌, ◌≤◌, ◌<◌, ◌≡◌, ◌≢◌, refl, ap, subst, ◌∙◌, sym, List, [], ◌∷◌, ◌++◌,
  length, All, true, false, Bool-cases, ==_iff, inl, inr, ltb, leb, ◌==◌, if◌then◌else◌, Result, ok,
  err, Result-cases, ◌>>=◌, arith,
}
use vex_lua.State.Frame.{FrameError}
use vex_lua.State.Thread.{ThreadState, with_head, value_at_address, slot_index}
use vex_lua.Upvalue.Object.{Node, UpvalueError, is_open, out_of_steps}
use vex_lua.Upvalue.Manager.{
  ObjectOps, of_stack, closed_node, set_next, set_previous, close_one, close_from, close_in_range,
  close_at_or_above,
}
use vex_lua.Upvalue.Opened.{ObjectLaws, Open}
use vex_lua.Upvalue.Close.{Keeps, Keeps-trans, IsClosedAt, kept-IsClosedAt, close_one-head}

-- The list's upvalues for slots below a level; the list goes down.
abbrev pub kept : ℕ → List (ℕ × ℕ) → List (ℕ × ℕ)
kept level [] = []
kept level ((r, s) ∷ rest) = if ltb s level then (r, s) ∷ rest else kept level rest

-- The references of the others.
abbrev pub closed_refs : ℕ → List (ℕ × ℕ) → List ℕ
closed_refs level [] = []
closed_refs level ((r, s) ∷ rest) = if ltb s level then [] else r ∷ closed_refs level rest

append_one : (xs : List ℕ) (y : ℕ) (ys : List ℕ) → (xs ++ y ∷ []) ++ ys ≡ xs ++ y ∷ ys
append_one [] y ys = refl
append_one (x ∷ xs) y ys = ap (λ zs. x ∷ zs) (append_one xs y ys)

append_nil : (xs : List ℕ) → xs ≡ xs ++ []
append_nil [] = refl
append_nil (x ∷ xs) = ap (λ ys. x ∷ ys) (append_nil xs)

of_stack_ends : {A : Type 0} (m : Result FrameError A) → of_stack m ≢ err out_of_steps
of_stack_ends (ok a) eq = cc
of_stack_ends (err e) eq = cc

pub bind_ends :
    {A B : Type 0} (m : Result UpvalueError A) (f : A → Result UpvalueError B)
    → m ≢ err out_of_steps
    → ((a : A) → f a ≢ err out_of_steps)
    → (m >>= f) ≢ err out_of_steps
bind_ends (ok a) f ends rest = rest a
bind_ends (err e) f ends rest = λ eq. ends (error eq)
  where
    error :
        {B : Type 0} {e : UpvalueError}
        → ◌≡◌ {A = Result UpvalueError B} (err e) (err out_of_steps)
        → {A : Type 0} → ◌≡◌ {A = Result UpvalueError A} (err e) (err out_of_steps)
    error eq = cc

module _ {H : Type 0} (ops : ObjectOps H) where
  -- The outcome of a loop: every upvalue keeps its value, the ones below the level are the list, and
  -- the others are closed and reported from the top down. An error is not that of too few steps.
  abbrev pub IsClosed :
      H
      → ThreadState
      → ℕ
      → ℕ
      → List (ℕ × ℕ)
      → List ℕ
      → Result UpvalueError (H × (ThreadState × List ℕ))
      → Type 0
  IsClosed h t level bound rs closed (ok (h', (t', out))) =
      Keeps ops h h' t
      × Open ops h' 0 t'.open_upvalue_head bound (kept level rs)
      × (t' ≡ with_head t t'.open_upvalue_head)
      × (out ≡ closed ++ closed_refs level rs)
      × All (IsClosedAt ops h') (closed_refs level rs)
  IsClosed h t level bound rs closed (err e) = e ≢ out_of_steps

  Open-weaken :
      (h : H) (previous current bound bound' : ℕ) (rs : List (ℕ × ℕ))
      → bound ≤ bound'
      → Open ops h previous current bound rs
      → Open ops h previous current bound' rs
  unfolding Open
  Open-weaken h previous current bound bound' [] le o = o
  Open-weaken h previous current bound bound' ((r, s) ∷ rs) le
        (at, nz, (node, there, opened, here, back, lt, rest)) =
      (at, nz, (node, there, opened, here, back, omega (arith, lt, le), rest))

  Keeps-head :
      (h h' : H) (t : ThreadState) (n : ℕ) → Keeps ops h h' (with_head t n) → Keeps ops h h' t
  unfolding value_at_address slot_index
  Keeps-head h h' t n k = k

  -- One upvalue was closed before the others.
  later-IsClosed :
      (h h₁ : H) (t : ThreadState) (n level bound r s : ℕ) (rs : List (ℕ × ℕ)) (closed : List ℕ)
      (result : Result UpvalueError (H × (ThreadState × List ℕ)))
      → ltb s level ≡ false
      → s < bound
      → Keeps ops h h₁ t
      → IsClosedAt ops h₁ r
      → IsClosed h₁ (with_head t n) level s rs (closed ++ r ∷ []) result
      → IsClosed h t level bound ((r, s) ∷ rs) closed result
  later-IsClosed h h₁ t n level bound r s rs closed (err e) above lt k at c = c
  later-IsClosed h h₁ t n level bound r s rs closed (ok (h', (t', out))) above lt k at
        (k', o, same, list, all) =
      rw above (
        Keeps-trans ops h h₁ h' t k (Keeps-head h₁ h' t n k'),
        Open-weaken h' 0 t'.open_upvalue_head s bound (kept level rs) (omega (arith, lt)) o,
        same,
        list ∙ append_one closed r (closed_refs level rs),
        (kept-IsClosedAt ops h₁ h' t r (Keeps-head h₁ h' t n k') at, all),
      )

module _ {H : Type 0} (ops : ObjectOps H) (laws : ObjectLaws ops) where
  set_previous_ends : (h : H) (current ref : ℕ) → set_previous ops h current ref ≢ err out_of_steps
  unfolding set_previous
  set_previous_ends h current ref eq = elim (Bool-cases (current == 0)) [
    | inl nil ↦ (let bad = rw (set_previous, nil) at eq in cc)
    | inr some_node ↦
        bind_ends (ops.object h current)
          (λ node. ops.write_object h current (record node { prev_open = ref }))
          (laws.read_ends h current) (λ node. laws.write_ends h current _)
          (rw (set_previous, some_node) at eq)
  ]

  close_one_ends :
      (h : H) (t : ThreadState) (current : ℕ) (node : Node)
      → close_one ops h t 0 current node ≢ err out_of_steps
  unfolding close_one set_next
  close_one_ends h t current node =
      bind_ends (of_stack (value_at_address t node.slot_address)) _ (of_stack_ends _) (λ value.
        bind_ends (ops.write_object h current (closed_node node value)) _
          (laws.write_ends h current _)
          (λ h₁.
            bind_ends (ops.write_barrier h₁ current value) _ (laws.barrier_ends h₁ current value)
              (λ h₂.
                bind_ends (set_previous ops h₂ node.next_open 0) _
                  (set_previous_ends h₂ node.next_open 0) (λ h₃ eq. cc))))

  -- One step of the loop, at an upvalue to close, from what the steps after it do.
  close_from_step :
      (steps : ℕ) (h : H) (t : ThreadState) (current level upper bound r s : ℕ) (rs : List (ℕ × ℕ))
      (closed : List ℕ) (node : Node)
      → current ≡ r
      → ops.object h current ≡ ok node
      → is_open node.state ≡ true
      → node.slot_address ≡ s
      → s < bound
      → bound ≤ upper
      → length rs < steps
      → ltb node.slot_address level ≡ false
      → Open ops h current node.next_open s rs
      → ((h₁ : H)
          → Open ops h₁ 0 node.next_open s rs
          → s ≤ upper
          → node.next_open ≡ node.next_open
          → length rs < steps
          → IsClosed ops h₁ (with_head t node.next_open) level s rs (closed ++ current ∷ []) (
              close_from ops steps level upper h₁
                (with_head t node.next_open)
                0
                node.next_open
                (closed ++ current ∷ [])))
      → IsClosed ops h t level bound ((r, s) ∷ rs) closed (
          close_one ops h t 0 current node >>= λ (h', t').
          close_from ops steps level upper h' t' 0 node.next_open (closed ++ current ∷ []))
  close_from_step steps h t current level upper bound r s rs closed node at there opened here lt le
        few above rest later =
      elim (Result-cases (close_one ops h t 0 current node)) [
        | inl (e, failed) ↦
            rw failed (λ same. close_one_ends h t current node (failed ∙ ap err same))
        | inr ((h₁, t₁), done) ↦
            (let rest' = subst (λ b. Open ops h current node.next_open b rs) (sym here) rest in
              let (k, shut, o, same) =
                close_one-head ops laws h h₁ t t₁ current node rs there opened rest' done in
              let o' = subst (λ b. Open ops h₁ 0 node.next_open b rs) here o in
              let result = later h₁ o' (omega (arith, lt, le)) refl few in
              rw (done, same)
                (subst
                  (λ x. IsClosed ops h t level bound ((x, s) ∷ rs) closed (
                    close_from ops steps level upper h₁ (with_head t node.next_open) 0
                      node.next_open (closed ++ current ∷ [])))
                  at
                  (later-IsClosed ops h h₁ t node.next_open level bound current s rs closed _
                    (subst (λ n. ltb n level ≡ false) here above) lt k shut result)))
      ]

  pub close_from-IsClosed :
      (steps : ℕ) (h : H) (t : ThreadState) (current level upper bound : ℕ) (rs : List (ℕ × ℕ))
      (closed : List ℕ)
      → Open ops h 0 current bound rs
      → bound ≤ upper
      → t.open_upvalue_head ≡ current
      → length rs < steps
      → IsClosed ops h t level bound rs closed
          (close_from ops steps level upper h t 0 current closed)
  unfolding close_from Open
  close_from-IsClosed zero h t current level upper bound rs closed o le head few =
      absurd (omega arith)
  close_from-IsClosed (suc steps) h t current level upper bound [] closed o le head few =
      let nil : (current == 0) ≡ true = (==_iff current 0).1 o in
      rw (close_from, nil)
        (λ r n at. (n, at, refl, refl, λ c. c), head ∙ o, refl, append_nil closed, tt)
  close_from-IsClosed (suc steps) h t current level upper bound ((r, s) ∷ rs) closed
        (at, nz, (node, there, opened, here, back, lt, rest)) le head few =
      let some_node : (current == 0) ≡ false = ground (arith, at, nz) in
      let there' : ops.object h current ≡ ok node = ap (ops.object h) at ∙ there in
      let inside : leb upper node.slot_address ≡ false = ground (arith, here, lt, le) in
      elim (Bool-cases (ltb node.slot_address level)) [
        | inl below ↦
            (let below' : ltb s level ≡ true = subst (λ n. ltb n level ≡ true) here below in
              rw (close_from, some_node, there', opened, inside, below, below')
                (
                  (λ r n at. (n, at, refl, refl, λ c. c)),
                  (head ∙ at, nz, (node, there, opened, here, back, lt, rest)),
                  refl,
                  append_nil closed,
                  tt,
                ))
        | inr above ↦
            rw (close_from, some_node, there', opened, inside, above)
              (close_from_step steps h t current level upper bound r s rs closed node at there'
                opened here lt le (omega (arith, few)) above
                (subst (λ c. Open ops h c node.next_open s rs) (sym at) rest)
                (λ h₁.
                  close_from-IsClosed steps h₁ (with_head t node.next_open) node.next_open level
                    upper s rs (closed ++ current ∷ [])))
      ]

  -- A level at or above every slot closes nothing.
  none-IsClosed :
      (h : H) (t : ThreadState) (level bound : ℕ) (rs : List (ℕ × ℕ))
      → Open ops h 0 t.open_upvalue_head bound rs
      → bound ≤ level
      → IsClosed ops h t level bound rs [] (ok (h, (t, [])))
  unfolding Open
  none-IsClosed h t level bound [] o le =
      ((λ r n at. (n, at, refl, refl, λ c. c)), o, refl, refl, tt)
  none-IsClosed h t level bound ((r, s) ∷ rs) (at, nz, (node, there, opened, here, back, lt, rest))
        le =
      let below : ltb s level ≡ true = ground (arith, lt, le) in
      rw below (
        (λ q n found. (n, found, refl, refl, λ c. c)),
        (at, nz, (node, there, opened, here, back, lt, rest)),
        refl,
        refl,
        tt,
      )

  -- Closing at a level, in a thread whose open list is in order and below the last address, with
  -- more steps than the list has upvalues, does not run out of steps. If it returns without an
  -- error, every upvalue that was there still is, with its thread and with the value that it had;
  -- those of the list for slots at or above the level are closed and are returned, the highest slot
  -- first; the thread's list is its old list without them, linked and in order; and nothing else of
  -- the thread changes.
  pub close_at_or_above-IsClosed :
      (steps : ℕ) (h : H) (t : ThreadState) (level bound : ℕ) (rs : List (ℕ × ℕ))
      → Open ops h 0 t.open_upvalue_head bound rs
      → bound ≤ 2 ^ 64 - 1
      → length rs < steps
      → IsClosed ops h t level bound rs [] (close_at_or_above ops steps h t level)
  unfolding close_at_or_above close_in_range
  close_at_or_above-IsClosed steps h t level bound rs o le few =
      elim (Bool-cases (leb (2 ^ 64 - 1) level)) [
        | inl past ↦
            rw (close_at_or_above, close_in_range, past)
              (none-IsClosed h t level bound rs o (ground (arith, past, le)))
        | inr before ↦
            rw (close_at_or_above, close_in_range, before)
              (close_from-IsClosed steps h t t.open_upvalue_head level (2 ^ 64 - 1) bound rs [] o le
                refl few)
      ]
