-- ===== src/Upvalue/OnHeap/Laws/Tests.antt =====
-- Upvalues in a new heap, on a platform that commits.
use vex_lua.Base.{ℕ, ◌≡◌, refl, arith, ◌>>=◌, true, some, List, [], ◌∷◌, Result, ok, replicate}
use vex_lua.Base.Bytes.{read_le}
use vex_lua.Base.Slots.{write_slots}
use vex_lua.Heap.{Heap, Platform}
use vex_lua.Heap.Pages.{new_heap, empty_heap}
use vex_lua.Heap.Running.{Runs}
use vex_lua.Heap.Made.{new_heap-Runs}
use vex_lua.State.Frame.{blank_frame}
use vex_lua.State.Thread.{ThreadState}
use vex_lua.Upvalue.Object.{UpvalueError}
use vex_lua.Upvalue.Manager.{find_or_create_open, close_at_or_above, get}
use vex_lua.Upvalue.Opened.{ObjectLaws}
use vex_lua.Upvalue.OnHeap.{HasRoom}
use vex_lua.Upvalue.OnHeap.Steps.{UpvalueHeap, heap_objects}
use vex_lua.Upvalue.OnHeap.Laws.{heap-ObjectLaws}

abbrev platform : Platform
platform = record {
  os_page_size = some 4096;
  reserve = λ size. some 0x7f0000000000;
  commits = λ size. true;
  order = λ spans. [];
}

heap-ObjectLaws_example : ObjectLaws (heap_objects platform)
heap-ObjectLaws_example = heap-ObjectLaws platform (λ n. refl)

abbrev empty : Heap
empty =
    empty_heap 0x100000000000 256
      (record { native_base = 0x7f0000000000; reserved_size = 0x40000000; page_size = 4096 })

empty-Runs : Runs empty
unfolding new_heap
empty-Runs = new_heap-Runs platform 0 256 4096 empty refl (omega arith) (omega arith) refl

empty-HasRoom : HasRoom empty
empty-HasRoom offset span there live object kind = cc

abbrev fresh : UpvalueHeap
fresh = (empty, empty-Runs, empty-HasRoom)

abbrev thread : ThreadState
thread = record {
  id = 1;
  stack_base = 0x1000;
  frame_base = 0x2000;
  stack = 11 ∷ 12 ∷ 13 ∷ [];
  frames = replicate 1 blank_frame;
  current_frame = 0;
  open_upvalue_head = 0;
}

abbrev run : Result UpvalueError (ℕ × List ℕ)
run = do
  (h₁, (t₁, first)) ← find_or_create_open (heap_objects platform) 1 fresh thread 0x1000
  (h₂, (t₂, second)) ← find_or_create_open (heap_objects platform) 2 h₁ t₁ 0x1010
  (h₃, (t₃, closed)) ← close_at_or_above (heap_objects platform) 3 h₂ t₂ 0x1008
  value ← get (heap_objects platform) (λ id. some t₃) h₃ second
  ok (value, first ∷ second ∷ closed)

-- Two variables are captured, and the upper one is closed with its value.
ran : run ≡ ok (13, 1 ∷ 5 ∷ 5 ∷ [])
unfolding find_or_create_open close_at_or_above get heap_objects read_le write_slots
ran = refl
