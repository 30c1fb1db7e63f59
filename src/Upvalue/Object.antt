-- ===== src/Upvalue/Object.antt =====
-- internal/runtime/upvalue/object.go: the fields of an upvalue object beside its common header.
use vex_lua.Base.{ℕ, Bool, true, false}
use vex_lua.State.Frame.{FrameError}
use vex_lua.Table.Layout.{nil_word}

pub data UpvalueState : Type 0 where
  state_invalid state_open state_closed : UpvalueState

-- `Object` without its common header, which the manager does not read.
pub record Node : Type 0 where
  pub state : UpvalueState
  pub slot_address : ℕ
  pub closed_value : ℕ
  pub next_open : ℕ
  pub prev_open : ℕ
  pub thread_id : ℕ

-- `NewObject`
unfoldable pub new_node : UpvalueState → ℕ → ℕ → Node
new_node state thread_id slot_address = record {
  state = state;
  slot_address = slot_address;
  closed_value = nil_word;
  next_open = 0;
  prev_open = 0;
  thread_id = thread_id;
}

abbrev pub is_open : UpvalueState → Bool
is_open state_open = true
is_open state_closed = false
is_open state_invalid = false

abbrev pub is_closed : UpvalueState → Bool
is_closed state_closed = true
is_closed state_open = false
is_closed state_invalid = false

-- What an operation may fail with; the last one is for a walk that takes more steps than it has.
pub data UpvalueError : Type 0 where
  not_open missing_thread : ℕ → UpvalueError
  stack_failed : FrameError → UpvalueError
  object_failed out_of_steps : UpvalueError
