-- ===== src/Upvalue/Manager.antt =====
-- internal/runtime/upvalue/manager.go: finding, closing, reading and writing upvalues.
-- A walk of the open list has a number of steps, as many as the list has upvalues and one more.
use vex_lua.Base.{
  ℕ, zero, suc, ◌-◌, ◌^◌, true, false, List, [], ◌∷◌, ◌++◌, Option, none, some, ltb, leb, ◌==◌,
  if◌then◌else◌, Result, ok, err, ◌>>=◌, ◌>>◌, guard,
}
use vex_lua.State.Frame.{FrameError}
use vex_lua.State.Thread.{ThreadState, with_head, value_at_address, set_value_at_address}
use vex_lua.Upvalue.Object.{
  Node, UpvalueError, new_node, is_open, is_closed, state_open, state_closed, not_open,
  missing_thread, stack_failed, out_of_steps,
}

-- The upvalue objects in a heap: `Manager.Object`, `writeObject`, `allocObject`, and the write
-- barrier at an object.
pub record ObjectOps (H : Type 0) : Type 0 where
  pub object : H → ℕ → Result UpvalueError Node
  pub write_object : H → ℕ → Node → Result UpvalueError H
  pub alloc_object : H → Node → Result UpvalueError (H × ℕ)
  pub write_barrier : H → ℕ → ℕ → Result UpvalueError H

abbrev pub of_stack {ℓ} : {A : Type ℓ} → Result FrameError A → Result UpvalueError A
of_stack (ok a) = ok a
of_stack (err e) = err (stack_failed e)

-- Where the search of the open list ends: at the slot's upvalue, or between two neighbours.
pub data Spot : Type 0 where
  found : ℕ → Spot
  between : ℕ → ℕ → Spot

-- An upvalue that takes its value from the stack.
abbrev pub closed_node : Node → ℕ → Node
closed_node node value = record node {
  state = state_closed;
  closed_value = value;
  next_open = 0;
  prev_open = 0;
}

module _ {H : Type 0} (ops : ObjectOps H) where
  -- The loop of `FindOrCreateOpen`.
  unfoldable pub find_from : ℕ → H → ℕ → ℕ → ℕ → Result UpvalueError Spot
  find_from zero h slot previous current = err out_of_steps
  find_from (suc steps) h slot previous current =
      if current == 0 then ok (between previous 0) else (do
        node ← ops.object h current
        guard (is_open node.state) (not_open current)
        elim (node.slot_address == slot) [
          | true ↦ ok (found current)
          | false ↦ elim (ltb node.slot_address slot) [
            | true ↦ ok (between previous current)
            | false ↦ find_from steps h slot current node.next_open
          ]
        ])

  -- The next link of `previous`, or the thread's head.
  unfoldable pub set_next : H → ThreadState → ℕ → ℕ → Result UpvalueError (H × ThreadState)
  set_next h t previous ref = if previous == 0 then ok (h, with_head t ref) else (do
    node ← ops.object h previous
    h' ← ops.write_object h previous (record node { next_open = ref })
    ok (h', t))

  -- The previous link of `current`, if it is an upvalue.
  unfoldable pub set_previous : H → ℕ → ℕ → Result UpvalueError H
  set_previous h current ref = if current == 0 then ok h else (do
    node ← ops.object h current
    ops.write_object h current (record node { prev_open = ref }))

  unfoldable pub create_between :
      H → ThreadState → ℕ → ℕ → ℕ → Result UpvalueError (H × (ThreadState × ℕ))
  unfolding new_node set_next set_previous
  create_between h t slot previous current = do
    (h₁, ref) ←
        ops.alloc_object h
          (record (new_node state_open t.id slot) { prev_open = previous; next_open = current })
    (h₂, t₂) ← set_next h₁ t previous ref
    h₃ ← set_previous h₂ current ref
    ok (h₃, (t₂, ref))

  unfoldable pub find_or_create_open :
      ℕ → H → ThreadState → ℕ → Result UpvalueError (H × (ThreadState × ℕ))
  unfolding find_from create_between value_at_address
  find_or_create_open steps h t slot = do
    value ← of_stack (value_at_address t slot)
    spot ← find_from steps h slot 0 t.open_upvalue_head
    elim spot [
      | found ref ↦ ok (h, (t, ref))
      | between previous current ↦ create_between h t slot previous current
    ]

  -- One upvalue is closed with the value of its slot, and unlinked.
  unfoldable pub close_one : H → ThreadState → ℕ → ℕ → Node → Result UpvalueError (H × ThreadState)
  unfolding value_at_address set_next set_previous
  close_one h t previous current node = do
    value ← of_stack (value_at_address t node.slot_address)
    h₁ ← ops.write_object h current (closed_node node value)
    h₂ ← ops.write_barrier h₁ current value
    (h₃, t₃) ← set_next h₂ t previous node.next_open
    h₄ ← set_previous h₃ node.next_open previous
    ok (h₄, t₃)

  -- The loop of `CloseInRange`.
  unfoldable pub close_from :
      ℕ
      → ℕ
      → ℕ
      → H
      → ThreadState
      → ℕ
      → ℕ
      → List ℕ
      → Result UpvalueError (H × (ThreadState × List ℕ))
  unfolding close_one
  close_from zero lower upper h t previous current closed = err out_of_steps
  close_from (suc steps) lower upper h t previous current closed =
      if current == 0 then ok (h, (t, closed)) else (do
        node ← ops.object h current
        guard (is_open node.state) (not_open current)
        elim (leb upper node.slot_address) [
          | true ↦ close_from steps lower upper h t current node.next_open closed
          | false ↦ elim (ltb node.slot_address lower) [
            | true ↦ ok (h, (t, closed))
            | false ↦ (do
              (h', t') ← close_one h t previous current node
              close_from steps lower upper h' t' previous node.next_open (closed ++ current ∷ []))
          ]
        ])

  unfoldable pub close_in_range :
      ℕ → H → ThreadState → ℕ → ℕ → Result UpvalueError (H × (ThreadState × List ℕ))
  unfolding close_from
  close_in_range steps h t lower upper =
      if leb upper lower
      then ok (h, (t, []))
      else close_from steps lower upper h t 0 t.open_upvalue_head []

  unfoldable pub close_at_or_above :
      ℕ → H → ThreadState → ℕ → Result UpvalueError (H × (ThreadState × List ℕ))
  unfolding close_in_range
  close_at_or_above steps h t level = close_in_range steps h t level (2 ^ 64 - 1)

  -- `Get`, with the machine's threads by their numbers.
  unfoldable pub get : (ℕ → Option ThreadState) → H → ℕ → Result UpvalueError ℕ
  unfolding value_at_address
  get threads h ref = do
    node ← ops.object h ref
    (if is_closed node.state then ok node.closed_value else elim (threads node.thread_id) [
      | none ↦ err (missing_thread ref)
      | some t ↦ of_stack (value_at_address t node.slot_address)
    ])

  -- `Set`, with the thread that it changes.
  unfoldable pub set_upvalue :
      (ℕ → Option ThreadState) → H → ℕ → ℕ → Result UpvalueError (H × Option ThreadState)
  unfolding set_value_at_address
  set_upvalue threads h ref value = do
    node ← ops.object h ref
    (if is_closed node.state
        then (do
          h₁ ← ops.write_object h ref (record node { closed_value = value })
          h₂ ← ops.write_barrier h₁ ref value
          ok (h₂, none))
        else elim (threads node.thread_id) [
          | none ↦ err (missing_thread ref)
          | some t ↦ (do
            t' ← of_stack (set_value_at_address t node.slot_address value)
            ok (h, some t'))
        ])
