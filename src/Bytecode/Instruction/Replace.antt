-- ===== src/Bytecode/Instruction/Replace.antt =====
-- Replacing one field of a word.
use vex_lua.Base.{ℕ, ◌^◌, ◌<◌, ◌≤◌, ◌≡◌, arith, true, ok}
use vex_lua.Base.Int.{pos}
use vex_lua.Bytecode.Opcode.{Opcode, code, valid}
use vex_lua.Bytecode.Instruction.{
  size_op, size_a, size_b, size_c, pos_op, pos_a, pos_b, pos_c, max_arg_a, max_arg_b, max_arg_c,
  opcode_of, a_of, b_of, c_of, replace_field, set_opcode, set_a, set_b, set_c,
}
use vex_lua.Bytecode.Instruction.Fields.{replace_a, replace_b, replace_c, replace_op}
use vex_lua.Bytecode.Instruction.RoundTrip.{Holds, valid-lt, sum-Holds, fields_lem, code-opcode_of}

set_opcode_lem :
    (word : ℕ) (op : Opcode)
    → valid op ≡ true
    → set_opcode word op ≡ ok (replace_field word size_op pos_op (code op))
unfolding set_opcode
set_opcode_lem word op v = ground arith

set_a_lem :
    (word a : ℕ) → a ≤ max_arg_a → set_a word (pos a) ≡ ok (replace_field word size_a pos_a a)
unfolding set_a
set_a_lem word a h = ground arith

set_b_lem :
    (word b : ℕ) → b ≤ max_arg_b → set_b word (pos b) ≡ ok (replace_field word size_b pos_b b)
unfolding set_b
set_b_lem word b h = ground arith

set_c_lem :
    (word c : ℕ) → c ≤ max_arg_c → set_c word (pos c) ≡ ok (replace_field word size_c pos_c c)
unfolding set_c
set_c_lem word c h = ground arith

-- `SetOpcode`, `SetA`, `SetB` and `SetC` with an operand in range return the word with that one
-- field replaced and the other three kept.
pub set-Holds :
    (word : ℕ) (op : Opcode) (a b c : ℕ)
    → word < 2 ^ 32
    → valid op ≡ true
    → a ≤ max_arg_a
    → b ≤ max_arg_b
    → c ≤ max_arg_c
    → ((w : ℕ) × (set_opcode word op ≡ ok w) × Holds w op (a_of word) (b_of word) (c_of word))
      × ((w : ℕ) × (set_a word (pos a) ≡ ok w) × Holds w (opcode_of word) a (b_of word) (c_of word))
      × ((w : ℕ) × (set_b word (pos b) ≡ ok w) × Holds w (opcode_of word) (a_of word) b (c_of word))
      × ((w : ℕ) × (set_c word (pos c) ≡ ok w) × Holds w (opcode_of word) (a_of word) (b_of word) c)
set-Holds word op a b c w v ha hb hc =
    let below = valid-lt op v in
    let e = fields_lem word in
    let o = code-opcode_of word in
    (
      (
        _,
        set_opcode_lem word op v,
        sum-Holds _ op _ _ _ (omega arith) (omega arith) (omega arith) (omega arith)
            (omega (arith, replace_op word (code op))),
      ),
      (
        _,
        set_a_lem word a ha,
        sum-Holds _ _ a _ _ (omega arith) (omega arith) (omega arith) (omega arith)
            (omega (arith, replace_a word a)),
      ),
      (
        _,
        set_b_lem word b hb,
        sum-Holds _ _ _ b _ (omega arith) (omega arith) (omega arith) (omega arith)
            (omega (arith, replace_b word b)),
      ),
      (
        _,
        set_c_lem word c hc,
        sum-Holds _ _ _ _ c (omega arith) (omega arith) (omega arith) (omega arith)
            (omega (arith, replace_c word c)),
      ),
    )
