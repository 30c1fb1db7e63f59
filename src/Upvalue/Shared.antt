-- ===== src/Upvalue/Shared.antt =====
-- A variable that closures share: what one sets, the others get, open or closed.
use vex_lua.Base.{
  ℕ, ◌<◌, ◌≡◌, refl, ap, subst, ◌∙◌, sym, true, false, Bool-cases, ==_iff, inl, inr, length,
  length-set, get_or, set, get_or-set_self, Option, none, some, Option-cases, ◌==◌, if◌then◌else◌,
  Result, ok, err, >>=-eq-ok, ◌>>=◌, arith, ok_pair,
}
use vex_lua.State.Frame.{FrameError}
use vex_lua.State.Thread.{ThreadState, slot_index, value_at_address, set_value_at_address}
use vex_lua.Upvalue.Object.{Node, UpvalueError, is_closed}
use vex_lua.Upvalue.Manager.{ObjectOps, of_stack, get, set_upvalue}
use vex_lua.Upvalue.Opened.{ObjectLaws}

-- The machine's threads after one of them changed.
abbrev pub changed : (ℕ → Option ThreadState) → Option ThreadState → ℕ → Option ThreadState
changed threads none id = threads id
changed threads (some t) id = if t.id == id then some t else threads id

-- A read of a slot's address finds the index, and the value there.
slot_index-inside :
    (t : ThreadState) (address index : ℕ) → slot_index t address ≡ ok index → index < length t.stack
unfolding slot_index
slot_index-inside t address index eq = ground (arith, eq)

-- The index of an address depends on the number of slots alone.
slot_index-set :
    (t : ThreadState) (address at value : ℕ)
    → slot_index (record t { stack = set t.stack at value }) address ≡ slot_index t address
unfolding slot_index
slot_index-set t address at value = rw (length-set t.stack at value) refl

set_value-read :
    (t t' : ThreadState) (address value : ℕ)
    → set_value_at_address t address value ≡ ok t'
    → (value_at_address t' address ≡ ok value) × (t'.id ≡ t.id)
unfolding set_value_at_address value_at_address
set_value-read t t' address value eq =
    let (index, at, done) = >>=-eq-ok (slot_index t address) _ eq in
    let same : record t { stack = set t.stack index value } ≡ t' = cc in
    (
      subst (λ x. value_at_address x address ≡ ok value) same
          (ap (λ r. r >>= λ i. ok (get_or (set t.stack index value) i 0))
              (slot_index-set t address index value ∙ at)
            ∙ ap ok (get_or-set_self t.stack index value 0 (slot_index-inside t address index at))),
      ap (λ x. x.id) (sym same),
    )

stack_ok : {A : Type 0} (m : Result FrameError A) (a : A) → of_stack m ≡ ok a → m ≡ ok a
stack_ok (ok b) a eq = cc
stack_ok (err e) a eq = absurd cc

missing :
    {A : Type 0} {a : A} {e : UpvalueError} → ◌≡◌ {A = Result UpvalueError A} (err e) (ok a) → ⊥
missing eq = cc

module _ {H : Type 0} (ops : ObjectOps H) (laws : ObjectLaws ops) where
  get-set_open :
      (threads : ℕ → Option ThreadState) (h : H) (t t₁ : ThreadState) (node : Node) (ref value : ℕ)
      → ops.object h ref ≡ ok node
      → is_closed node.state ≡ false
      → t.id ≡ node.thread_id
      → set_value_at_address t node.slot_address value ≡ ok t₁
      → get ops (changed threads (some t₁)) h ref ≡ ok value
  unfolding get
  get-set_open threads h t t₁ node ref value read opened owner done =
      let (back, id) = set_value-read t t₁ node.slot_address value done in
      let same : (t₁.id == node.thread_id) ≡ true = (==_iff t₁.id node.thread_id).1 (id ∙ owner) in
      rw (get, read, opened, same, back) refl

  -- When an upvalue was set, with a machine whose threads are known by their own numbers, the same
  -- reference reads as the value that was set: from the object of a closed upvalue, from the stack
  -- of the thread of an open one.
  pub get-set_upvalue :
      (threads : ℕ → Option ThreadState) (h h' : H) (t' : Option ThreadState) (ref value : ℕ)
      → ((id : ℕ) (t : ThreadState) → threads id ≡ some t → t.id ≡ id)
      → set_upvalue ops threads h ref value ≡ ok (h', t')
      → get ops (changed threads t') h' ref ≡ ok value
  unfolding get set_upvalue
  get-set_upvalue threads h h' t' ref value ids eq =
      let (node, read, rest) = >>=-eq-ok (ops.object h ref) _ eq in
      elim (Bool-cases (is_closed node.state)) [
        | inl closed ↦
            (let (h₁, wrote, r₁) =
                >>=-eq-ok (ops.write_object h ref (record node { closed_value = value })) _
                  (rw closed at rest) in
              let (h₂, barred, last) = >>=-eq-ok (ops.write_barrier h₁ ref value) _ r₁ in
              let (same, same_t) = ok_pair last in
              let there : ops.object h' ref ≡ ok (record node { closed_value = value }) =
                subst (λ x. ops.object x ref ≡ ok (record node { closed_value = value })) same
                  (laws.unmoved h₁ h₂ ref value ref _ barred
                    (laws.written h h₁ ref (record node { closed_value = value }) wrote)) in
              rw (get, there, closed) refl)
        | inr opened ↦
            (let at_thread = rw opened at rest in
              elim (Option-cases (threads node.thread_id)) [
                | inl none_there ↦ absurd (missing (rw none_there at at_thread))
                | inr (t, there) ↦
                    (let (t₁, wrote, last) =
                        >>=-eq-ok (of_stack (set_value_at_address t node.slot_address value)) _
                          (rw there at at_thread) in
                      let (same, same_t) = ok_pair last in
                      let result =
                        get-set_open threads h t t₁ node ref value read opened
                          (ids node.thread_id t there) (stack_ok _ t₁ wrote) in
                      subst (λ x. get ops (changed threads x) h' ref ≡ ok value) same_t
                        (subst (λ x. get ops (changed threads (some t₁)) x ref ≡ ok value) same
                          result))
              ])
      ]
