-- ===== src/Bytecode/Instruction/Fields.antt =====
-- What the fields of a word are, and what packing and replacing do to them.
use vex_lua.Base.{ℕ, ◌+◌, ◌*◌, ◌/◌, ◌%◌, ◌^◌, ◌<◌, ◌≡◌, bit_or, arith}
use vex_lua.Base.Bits.{
  bit_and_mask, bit_or_below, bit_and_field, bit_or_split, bit_or-zero, zero-bit_or,
}
use vex_lua.Bytecode.Instruction.{
  shl, field, replace_field, size_op, size_a, size_b, size_c, size_bx, pos_op, pos_a, pos_b, pos_c,
  pos_bx,
}

-- A field is a digit of the word.
pub field_lem : (word place bits : ℕ) → field word place bits ≡ word / 2 ^ place % 2 ^ bits
unfolding field
field_lem word place bits = bit_and_mask bits (word / 2 ^ place)

-- The word that `CreateABC` builds from fields in range, as a sum.
pub pack_abc :
    (o a b c : ℕ)
    → o < 2 ^ size_op
    → a < 2 ^ size_a
    → b < 2 ^ size_b
    → c < 2 ^ size_c
    → bit_or (bit_or (bit_or (shl o pos_op) (shl a pos_a)) (shl b pos_b)) (shl c pos_c)
      ≡ o + a * 2 ^ pos_a + c * 2 ^ pos_c + b * 2 ^ pos_b
pack_abc o a b c ho ha hb hc = ground (
  arith,
  bit_or_below 6 a o,
  bit_or_below 23 b (o + a * 64),
  bit_or_split 23 b 0 (o + a * 64) (c * 16384),
  bit_or-zero b,
  bit_or_below 14 c (o + a * 64),
)

pub pack_abx :
    (o a bx : ℕ)
    → o < 2 ^ size_op
    → a < 2 ^ size_a
    → bx < 2 ^ size_bx
    → bit_or (bit_or (shl o pos_op) (shl a pos_a)) (shl bx pos_bx)
      ≡ o + a * 2 ^ pos_a + bx * 2 ^ pos_bx
pack_abx o a bx ho ha hb = ground (arith, bit_or_below 6 a o, bit_or_below 14 bx (o + a * 64))

-- The word with one field replaced: what stood above and below the field stays.
pub replace_a :
    (word v : ℕ)
    → v < 2 ^ size_a
    → replace_field word size_a pos_a v
      ≡ word / 2 ^ pos_c * 2 ^ pos_c + v * 2 ^ pos_a + word % 2 ^ pos_a
unfolding replace_field
replace_a word v h = ground (
  arith,
  bit_and_field 6 8 word,
  bit_or_split 14 (word / 2 ^ 14) 0 (word % 64) (v * 64),
  bit_or-zero (word / 2 ^ 14),
  bit_or_below 6 v (word % 64),
)

pub replace_b :
    (word v : ℕ)
    → word < 2 ^ 32
    → v < 2 ^ size_b
    → replace_field word size_b pos_b v ≡ v * 2 ^ pos_b + word % 2 ^ pos_b
unfolding replace_field
replace_b word v w h = ground (arith, bit_and_field 23 9 word, bit_or_below 23 v (word % 2 ^ 23))

pub replace_c :
    (word v : ℕ)
    → v < 2 ^ size_c
    → replace_field word size_c pos_c v
      ≡ word / 2 ^ pos_b * 2 ^ pos_b + v * 2 ^ pos_c + word % 2 ^ pos_c
unfolding replace_field
replace_c word v h = ground (
  arith,
  bit_and_field 14 9 word,
  bit_or_split 23 (word / 2 ^ 23) 0 (word % 2 ^ 14) (v * 2 ^ 14),
  bit_or-zero (word / 2 ^ 23),
  bit_or_below 14 v (word % 2 ^ 14),
)

pub replace_op :
    (word v : ℕ)
    → v < 2 ^ size_op
    → replace_field word size_op pos_op v ≡ word / 2 ^ pos_a * 2 ^ pos_a + v
unfolding replace_field
replace_op word v h = ground (
  arith,
  bit_and_field 0 6 word,
  bit_or_split 6 (word / 2 ^ 6) 0 0 v,
  bit_or-zero (word / 2 ^ 6),
  zero-bit_or v,
)

pub replace_bx :
    (word v : ℕ)
    → word < 2 ^ 32
    → v < 2 ^ size_bx
    → replace_field word size_bx pos_bx v ≡ v * 2 ^ pos_bx + word % 2 ^ pos_bx
unfolding replace_field
replace_bx word v w h = ground (arith, bit_and_field 14 18 word, bit_or_below 14 v (word % 2 ^ 14))
