-- ===== src/Bytecode/Opcode/Codes.antt =====
-- Opcodes and their bytes correspond.
use vex_lua.Base.{
  ℕ, ◌+◌, ◌-◌, ◌≤◌, ◌≡◌, refl, ap, true, arith, ◌==◌, ==_iff, get_or_past, passes_below,
  passes_below-true,
}
use vex_lua.Bytecode.Opcode.{Opcode, unknown, op_move, opcode_order, num_opcodes, opcode, code}
use native.Mathlib.Decide.{dec_lt}

code-opcode_table : passes_below num_opcodes (λ n. code (opcode n) == n) ≡ true
unfolding opcode code passes_below
code-opcode_table = refl

opcode_past : (n : ℕ) → num_opcodes ≤ n → opcode n ≡ unknown (n - num_opcodes)
unfolding opcode
opcode_past n h = get_or_past opcode_order n (unknown (n - num_opcodes)) h

-- The byte of the opcode that a byte stands for is that byte.
pub code-opcode : (n : ℕ) → code (opcode n) ≡ n
code-opcode n = elim (dec_lt n num_opcodes) [
  | yes h ↦
      (==_iff _ n).0
        (passes_below-true num_opcodes (λ x. code (opcode x) == x) n code-opcode_table h)
  | no h ↦ rw (opcode_past n (omega arith)) (unfold code in omega arith)
]

-- An opcode is the one that its byte stands for.
pub opcode-code : (op : Opcode) → opcode (code op) ≡ op
unfolding opcode code
opcode-code (unknown n) =
    rw (opcode_past (num_opcodes + n) (omega arith)) (ap unknown (omega arith))
opcode-code op_move = refl
opcode-code _ = refl
