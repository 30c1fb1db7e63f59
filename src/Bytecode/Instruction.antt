-- ===== src/Bytecode/Instruction.antt =====
-- internal/bytecode/instruction.go: packing and unpacking 32-bit instruction words.
-- A panic of the source is an `err`; an `int` argument is an integer, a word a number.
pub mod Fields
pub mod RoundTrip
mod Replace
mod Tests
use vex_lua.Base.{
  ℕ, ◌+◌, ◌-◌, ◌*◌, ◌/◌, ◌%◌, ◌^◌, bit_and, bit_or, Bool, not, ◌==◌, leb, Result, ok, err, ◌>>=◌,
  ◌>>◌, guard, if◌then◌else◌,
}
use vex_lua.Base.Bits.{low_mask, and_not}
use vex_lua.Base.Int.{ℤ, pos, negsuc, ◌+ℤ◌, sub_ℕ}
use vex_lua.Bytecode.Opcode.{Opcode, opcode, code, valid}

pub data Operand : Type 0 where
  operand_a operand_b operand_c operand_bx operand_sbx operand_rk : Operand

pub data Panic : Type 0 where
  out_of_range : Operand → ℤ → ℕ → Panic
  invalid_opcode : Opcode → Panic

abbrev pub size_c : ℕ
size_c = 9

abbrev pub size_b : ℕ
size_b = 9

abbrev pub size_bx : ℕ
size_bx = size_c + size_b

abbrev pub size_a : ℕ
size_a = 8

abbrev pub size_op : ℕ
size_op = 6

abbrev pub pos_op : ℕ
pos_op = 0

abbrev pub pos_a : ℕ
pos_a = pos_op + size_op

abbrev pub pos_c : ℕ
pos_c = pos_a + size_a

abbrev pub pos_b : ℕ
pos_b = pos_c + size_c

abbrev pub pos_bx : ℕ
pos_bx = pos_c

abbrev pub max_arg_a : ℕ
max_arg_a = 2 ^ size_a - 1

abbrev pub max_arg_b : ℕ
max_arg_b = 2 ^ size_b - 1

abbrev pub max_arg_c : ℕ
max_arg_c = 2 ^ size_c - 1

abbrev pub max_arg_bx : ℕ
max_arg_bx = 2 ^ size_bx - 1

abbrev pub max_arg_sbx : ℕ
max_arg_sbx = max_arg_bx / 2

abbrev pub bit_rk : ℕ
bit_rk = 2 ^ (size_b - 1)

abbrev pub max_index_rk : ℕ
max_index_rk = bit_rk - 1

-- `x << k` on 32 bits
abbrev pub shl : ℕ → ℕ → ℕ
shl x k = x * 2 ^ k % 2 ^ 32

unfoldable pub mask1 : ℕ → ℕ → ℕ
mask1 bits place = shl (low_mask bits) place

unfoldable pub field : ℕ → ℕ → ℕ → ℕ
field word place bits = bit_and (word / 2 ^ place) (low_mask bits)

unfoldable pub opcode_of : ℕ → Opcode
unfolding field
opcode_of word = opcode (field word pos_op size_op)

unfoldable pub a_of : ℕ → ℕ
unfolding field
a_of word = field word pos_a size_a

unfoldable pub b_of : ℕ → ℕ
unfolding field
b_of word = field word pos_b size_b

unfoldable pub c_of : ℕ → ℕ
unfolding field
c_of word = field word pos_c size_c

unfoldable pub bx_of : ℕ → ℕ
unfolding field
bx_of word = field word pos_bx size_bx

unfoldable pub sbx_of : ℕ → ℤ
sbx_of word = sub_ℕ (bx_of word) max_arg_sbx

unfoldable pub is_constant_rk : ℕ → Bool
is_constant_rk operand = not (bit_and operand bit_rk == 0)

unfoldable pub index_k : ℕ → ℕ
unfolding and_not
index_k operand = and_not operand bit_rk

-- The value, where it is within the range.
unfoldable pub assert_range : Operand → ℤ → ℕ → Result Panic ℕ
assert_range name (pos n) max = if leb n max then ok n else err (out_of_range name (pos n) max)
assert_range name (negsuc n) max = err (out_of_range name (negsuc n) max)

unfoldable pub assert_opcode : Opcode → Result Panic (Unit {0})
assert_opcode op = guard (valid op) (invalid_opcode op)

unfoldable pub rk_ask : ℤ → Result Panic ℕ
unfolding assert_range
rk_ask index = do i ← assert_range operand_rk index max_index_rk; ok (bit_or i bit_rk)

unfoldable pub create_abc : Opcode → ℤ → ℤ → ℤ → Result Panic ℕ
unfolding assert_range assert_opcode
create_abc op a b c = do
  assert_opcode op
  a' ← assert_range operand_a a max_arg_a
  b' ← assert_range operand_b b max_arg_b
  c' ← assert_range operand_c c max_arg_c
  ok (bit_or (bit_or (bit_or (shl (code op) pos_op) (shl a' pos_a)) (shl b' pos_b)) (shl c' pos_c))

unfoldable pub create_abx : Opcode → ℤ → ℤ → Result Panic ℕ
unfolding assert_range assert_opcode
create_abx op a bx = do
  assert_opcode op
  a' ← assert_range operand_a a max_arg_a
  bx' ← assert_range operand_bx bx max_arg_bx
  ok (bit_or (bit_or (shl (code op) pos_op) (shl a' pos_a)) (shl bx' pos_bx))

unfoldable pub create_asbx : Opcode → ℤ → ℤ → Result Panic ℕ
unfolding assert_range create_abx
create_asbx op a sbx = do
  _ ← assert_range operand_sbx (sbx +ℤ pos max_arg_sbx) max_arg_bx
  create_abx op a (sbx +ℤ pos max_arg_sbx)

-- `(word &^ mask1(bits, place)) | (v << place)`
unfoldable pub replace_field : ℕ → ℕ → ℕ → ℕ → ℕ
unfolding and_not mask1
replace_field word bits place v = bit_or (and_not word (mask1 bits place)) (shl v place)

unfoldable pub set_opcode : ℕ → Opcode → Result Panic ℕ
unfolding replace_field assert_opcode
set_opcode word op = do assert_opcode op; ok (replace_field word size_op pos_op (code op))

unfoldable pub set_a : ℕ → ℤ → Result Panic ℕ
unfolding replace_field assert_range
set_a word a = do a' ← assert_range operand_a a max_arg_a; ok (replace_field word size_a pos_a a')

unfoldable pub set_b : ℕ → ℤ → Result Panic ℕ
unfolding replace_field assert_range
set_b word b = do b' ← assert_range operand_b b max_arg_b; ok (replace_field word size_b pos_b b')

unfoldable pub set_c : ℕ → ℤ → Result Panic ℕ
unfolding replace_field assert_range
set_c word c = do c' ← assert_range operand_c c max_arg_c; ok (replace_field word size_c pos_c c')

unfoldable pub set_bx : ℕ → ℤ → Result Panic ℕ
unfolding replace_field assert_range
set_bx word bx = do
  bx' ← assert_range operand_bx bx max_arg_bx
  ok (replace_field word size_bx pos_bx bx')

unfoldable pub set_sbx : ℕ → ℤ → Result Panic ℕ
unfolding assert_range set_bx
set_sbx word sbx = do
  _ ← assert_range operand_sbx (sbx +ℤ pos max_arg_sbx) max_arg_bx
  set_bx word (sbx +ℤ pos max_arg_sbx)
