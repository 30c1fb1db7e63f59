-- ===== src/Bytecode/Validate/Checks.antt =====
-- What each check of the validator establishes.
use vex_lua.Base.{ℕ, ◌+◌, ◌<◌, ◌≡◌, refl, true, Option, some, none, length, get_elem?, All, arith}
use vex_lua.Base.Int.{ℤ, pos, negsuc, ◌+ℤ◌}
use vex_lua.Bytecode.Opcode.{Opcode, op_jmp}
use vex_lua.Bytecode.Instruction.{opcode_of, sbx_of}
use vex_lua.Bytecode.Proto.{Body, ConstantKind, constant_string, Constant}
use vex_lua.Bytecode.Validate.{
  pass, in_code, check_reg, check_constant, check_rk, check_jump, check_trailing_at,
  check_trailing_test_jump, check_global_at, check_global, check_upvalue, check_child, is_jump,
  is_string,
}
use vex_lua.Bytecode.Validate.Safe.{rk_registers, rk_constants, InCode, IsJumpBehind, IsStringAt}

in_code-InCode : (t : ℤ) (size : ℕ) → in_code t size ≡ true → InCode size t
in_code-InCode (pos n) size h = ground arith
in_code-InCode (negsuc n) size h = ground arith

is_jump-eq : (op : Opcode) → is_jump op ≡ true → op ≡ op_jmp
is_jump-eq op_jmp h = refl
is_jump-eq _ h = cc

is_string-eq : (k : ConstantKind) → is_string k ≡ true → k ≡ constant_string
is_string-eq constant_string h = refl
is_string-eq _ h = cc

module _ (owner : Body) (children pc : ℕ) (op : Opcode) where
  pub check_reg_lem : (r : ℕ) → check_reg owner children pc op r ≡ pass → r < owner.max_stack_size
  unfolding check_reg
  check_reg_lem r h = ground arith

  pub check_constant_lem :
      (k : ℕ) → check_constant owner children pc op k ≡ pass → k < length owner.constants
  unfolding check_constant
  check_constant_lem k h = ground arith

  pub check_rk_lem :
      (x : ℕ)
      → check_rk owner children pc op x ≡ pass
      → All (λ r. r < owner.max_stack_size) (rk_registers x)
        × All (λ k. k < length owner.constants) (rk_constants x)
  unfolding check_rk
  check_rk_lem x h = ground arith

  pub check_upvalue_lem :
      (u : ℕ) → check_upvalue owner children pc op u ≡ pass → u < owner.num_upvalues
  unfolding check_upvalue
  check_upvalue_lem u h = ground arith

  pub check_child_lem : (p : ℕ) → check_child owner children pc op p ≡ pass → p < children
  unfolding check_child
  check_child_lem p h = ground arith

  pub check_jump_lem :
      (sbx : ℤ)
      → check_jump owner children pc op sbx ≡ pass
      → InCode (length owner.instructions) (pos (pc + 1) +ℤ sbx)
  unfolding check_jump
  check_jump_lem sbx h =
      in_code-InCode (pos (pc + 1) +ℤ sbx) (length owner.instructions) (ground arith)

  trailing_at :
      (o : Option ℕ)
      → check_trailing_at owner children pc op o ≡ pass
      → (word : ℕ) × (o ≡ some word)
        × (opcode_of word ≡ op_jmp)
        × InCode (length owner.instructions) (pos (pc + 2) +ℤ sbx_of word)
  unfolding check_trailing_at
  trailing_at none h = cc
  trailing_at (some word) h = (
    word,
    refl,
    is_jump-eq (opcode_of word) (ground arith),
    in_code-InCode _ (length owner.instructions) (ground arith),
  )

  pub check_trailing_lem :
      check_trailing_test_jump owner children pc op ≡ pass → IsJumpBehind owner pc
  unfolding check_trailing_test_jump
  check_trailing_lem h =
      let (word, e, j, t) = trailing_at (get_elem? owner.instructions (pc + 1)) h in
      record { word = word; present = e; jump = j; target = t }

  global_at :
      (k : ℕ) (o : Option Constant)
      → get_elem? owner.constants k ≡ o
      → check_global_at owner children pc op k o ≡ pass
      → IsStringAt owner k
  unfolding check_global_at
  global_at k none e h = cc
  global_at k (some v) e h = (v, e, is_string-eq v.kind (ground arith))

  pub check_global_lem : (k : ℕ) → check_global owner children pc op k ≡ pass → IsStringAt owner k
  unfolding check_global
  check_global_lem k h = global_at k (get_elem? owner.constants k) refl h
