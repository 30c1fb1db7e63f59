-- ===== src/Bytecode/Iterator.antt =====
-- internal/bytecode/iterator.go: a cursor over the words of a prototype.
mod Walk
mod Tests
use vex_lua.Base.{
  ℕ, zero, suc, ◌+◌, ◌-◌, ◌≤◌, ◌<◌, ◌≡◌, refl, Bool, true, false, ◌||◌, List, [], ◌∷◌, ◌++◌, length,
  get_or, Result, ok, err, if◌then◌else◌, ltb, leb, arith,
}
use vex_lua.Base.Int.{ℤ, pos, negsuc, ltb_ℤ, leb_ℤ}
use vex_lua.Bytecode.Instruction.{opcode_of}
use vex_lua.Bytecode.Opcode.{Opcode}
use vex_lua.Bytecode.Proto.{Proto, body}

-- The offset never falls below 0: it starts there, and `SetOffset` refuses less.
pub record Iterator : Type 0 where
  pub words : List ℕ
  pub offset : ℕ

pub data IteratorError : Type 0 where
  offset_out_of_range : ℤ → IteratorError
  backwards : ℕ → ℤ → IteratorError

unfoldable pub new_iterator : List ℕ → Iterator
new_iterator code = record { words = code; offset = 0 }

unfoldable pub new_proto_iterator : Proto → Iterator
unfolding new_iterator
new_proto_iterator p = new_iterator (body p).instructions

unfoldable pub reset : Iterator → Iterator
reset it = record it { offset = 0 }

unfoldable pub is_done : Iterator → Bool
is_done it = leb (length it.words) it.offset

unfoldable pub current : Iterator → ℕ
unfolding is_done
current it = if is_done it then 0 else get_or it.words it.offset 0

unfoldable pub current_opcode : Iterator → Opcode
unfolding current
current_opcode it = opcode_of (current it)

unfoldable pub next_offset : Iterator → ℕ
next_offset it = it.offset + 1

unfoldable pub advance : Iterator → Iterator
unfolding is_done
advance it = if is_done it then it else record it { offset = it.offset + 1 }

-- The iterator that results, or the error that leaves it as it was.
unfoldable pub set_offset : Iterator → ℤ → Result IteratorError Iterator
set_offset it (pos n) =
    if ltb (length it.words) n
    then err (offset_out_of_range (pos n))
    else ok (record it { offset = n })
set_offset it (negsuc n) = err (offset_out_of_range (negsuc n))

unfoldable pub advance_to : Iterator → ℤ → Result IteratorError Iterator
unfolding set_offset
advance_to it offset =
    if ltb_ℤ offset (pos it.offset) then err (backwards it.offset offset) else set_offset it offset

abbrev pub InBounds : Iterator → Type 0
InBounds it = it.offset ≤ length it.words
