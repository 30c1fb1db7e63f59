-- ===== src/Upvalue/Opened.antt =====
-- The list of a thread's open upvalues, and what the heap keeps of upvalue objects.
use vex_lua.Base.{ℕ, ◌<◌, ◌≡◌, ◌≢◌, List, [], ◌∷◌, true, ok, err}
use vex_lua.Upvalue.Object.{Node, is_open, out_of_steps}
use vex_lua.Upvalue.Manager.{ObjectOps}

-- A heap of objects: what is written is read back, and nothing else changes; a new object has a
-- reference of its own, which is not 0; a barrier leaves every object. Only a walk of the list runs out of
-- steps.
pub record ObjectLaws {H : Type 0} (ops : ObjectOps H) : Type 0 where
  pub written :
      (h h' : H) (ref : ℕ) (node : Node)
      → ops.write_object h ref node ≡ ok h'
      → ops.object h' ref ≡ ok node
  pub unwritten :
      (h h' : H) (ref : ℕ) (node : Node) (r : ℕ) (n : Node)
      → ops.write_object h ref node ≡ ok h'
      → r ≢ ref
      → ops.object h r ≡ ok n
      → ops.object h' r ≡ ok n
  pub made :
      (h h' : H) (ref : ℕ) (node : Node)
      → ops.alloc_object h node ≡ ok (h', ref)
      → (ref ≢ 0)
        × (ops.object h' ref ≡ ok node)
        × ((r : ℕ) (n : Node) → ops.object h r ≡ ok n → (r ≢ ref) × (ops.object h' r ≡ ok n))
  pub unmoved :
      (h h' : H) (ref value r : ℕ) (n : Node)
      → ops.write_barrier h ref value ≡ ok h'
      → ops.object h r ≡ ok n
      → ops.object h' r ≡ ok n
  pub read_ends : (h : H) (ref : ℕ) → ops.object h ref ≢ err out_of_steps
  pub write_ends : (h : H) (ref : ℕ) (node : Node) → ops.write_object h ref node ≢ err out_of_steps
  pub barrier_ends : (h : H) (ref value : ℕ) → ops.write_barrier h ref value ≢ err out_of_steps

-- The list from a link on, as references with their slots: each upvalue is open, points back, and
-- stands for a slot below the one before it.
unfoldable pub Open : {H : Type 0} → ObjectOps H → H → ℕ → ℕ → ℕ → List (ℕ × ℕ) → Type 0
Open ops h previous current bound [] = current ≡ 0
Open ops h previous current bound ((ref, slot) ∷ rest) =
    (current ≡ ref)
    × (ref ≢ 0)
    × ((node : Node) × (ops.object h ref ≡ ok node)
        × (is_open node.state ≡ true)
        × (node.slot_address ≡ slot)
        × (node.prev_open ≡ previous)
        × (slot < bound)
        × Open ops h ref node.next_open slot rest)
