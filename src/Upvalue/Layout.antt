-- ===== src/Upvalue/Layout.antt =====
-- internal/runtime/upvalue/object.go: an upvalue object as bytes.
-- A state byte that is none of the three reads as the invalid one, from which the code tells no other.
pub mod RoundTrip
use vex_lua.Base.{
  ℕ, ◌^◌, ◌<◌, Bool, ◌&&◌, List, [], ◌∷◌, length, ltb, leb, ◌==◌, if◌then◌else◌, Result, ok, err,
  ◌>>=◌, ◌>>◌, guard,
}
use vex_lua.Base.Bytes.{read_le}
use vex_lua.Base.Slots.{Slot, put, write_slots}
use vex_lua.Value.Header.{CommonHeader, read_common_header, write_common_header}
use vex_lua.Table.Layout.{LayoutError, too_small, wrong_kind, lift, with_mark_of}
use vex_lua.Upvalue.Object.{Node, UpvalueState, state_invalid, state_open, state_closed}

abbrev pub upvalue_size : ℕ
upvalue_size = 0x40

abbrev pub kind_upvalue : ℕ
kind_upvalue = 5

-- The common header of `NewObject`.
abbrev pub upvalue_header : CommonHeader
upvalue_header = record {
  kind = kind_upvalue;
  mark = 0;
  flags = 0;
  size_bytes = upvalue_size;
  version = 1;
  aux = 0;
}

abbrev pub state_byte : UpvalueState → ℕ
state_byte state_invalid = 0
state_byte state_open = 1
state_byte state_closed = 2

abbrev pub state_of : ℕ → UpvalueState
state_of byte = if byte == 1 then state_open else if byte == 2 then state_closed else state_invalid

abbrev pub node_of : List ℕ → Node
node_of buffer = record {
  state = state_of (read_le 1 buffer 0x10);
  slot_address = read_le 8 buffer 0x18;
  closed_value = read_le 8 buffer 0x20;
  next_open = read_le 8 buffer 0x28;
  prev_open = read_le 8 buffer 0x30;
  thread_id = read_le 8 buffer 0x38;
}

-- `ReadObject`
unfoldable pub read_upvalue : List ℕ → Result LayoutError (CommonHeader × Node)
unfolding read_common_header
read_upvalue buffer = do
  guard (leb upvalue_size (length buffer)) (too_small (length buffer))
  common ← lift (read_common_header buffer)
  guard (common.kind == kind_upvalue) (wrong_kind common.kind)
  ok (common, node_of buffer)

abbrev pub node_slots : Node → List Slot
node_slots node =
    put 0x10 1 (state_byte node.state)
    ∷ put 0x11 1 0
    ∷ put 0x12 2 0
    ∷ put 0x14 4 0
    ∷ put 0x18 8 node.slot_address
    ∷ put 0x20 8 node.closed_value
    ∷ put 0x28 8 node.next_open
    ∷ put 0x30 8 node.prev_open
    ∷ put 0x38 8 node.thread_id
    ∷ []

-- `WriteObject`: the buffer that results.
unfoldable pub write_upvalue : List ℕ → CommonHeader → Node → Result LayoutError (List ℕ)
unfolding read_common_header write_common_header
write_upvalue buffer common node = do
  guard (leb upvalue_size (length buffer)) (too_small (length buffer))
  headed ← lift (write_common_header buffer (with_mark_of (read_common_header buffer) common))
  ok (write_slots headed (node_slots node))

-- The fields are words.
abbrev pub FitsWords : Node → Type 0
FitsWords node =
    (node.slot_address < 2 ^ 64)
    × (node.closed_value < 2 ^ 64)
    × (node.next_open < 2 ^ 64)
    × (node.prev_open < 2 ^ 64)
    × (node.thread_id < 2 ^ 64)

abbrev pub fits_words : Node → Bool
fits_words node =
    ltb node.slot_address (2 ^ 64)
    && (ltb node.closed_value (2 ^ 64)
        && (ltb node.next_open (2 ^ 64)
            && (ltb node.prev_open (2 ^ 64) && ltb node.thread_id (2 ^ 64))))
