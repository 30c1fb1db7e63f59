-- ===== src/Bytecode/Validate.antt =====
-- internal/bytecode/validate.go: the checks that a prototype passes before it runs.
-- The text of a reason is kept as a value; an `Info().SetsA` check comes before the `switch`.
mod Safe
mod Checks
mod Sound
mod Whole
mod Unchecked
mod Tests
use vex_lua.Base.{
  ℕ, suc, ◌+◌, ◌-◌, Bool, true, false, not, ◌&&◌, ◌||◌, List, [], ◌∷◌, Option, none, some, length,
  get_elem?, ltb, leb, ◌==◌, if◌then◌else◌, Result, ok, err, ◌>>=◌, ◌>>◌, guard,
}
use vex_lua.Base.Int.{ℤ, pos, negsuc, ◌+ℤ◌, ltb_ℤ, leb_ℤ}
use vex_lua.Bytecode.Opcode.{
  Opcode, op_move, op_loadk, op_loadbool, op_loadnil, op_getupval, op_getglobal, op_gettable,
  op_setglobal, op_setupval, op_settable, op_newtable, op_self, op_add, op_sub, op_mul, op_div,
  op_mod, op_pow, op_unm, op_not, op_len, op_concat, op_jmp, op_eq, op_lt, op_le, op_test,
  op_testset, op_call, op_tailcall, op_return, op_forloop, op_forprep, op_tforloop, op_setlist,
  op_close, op_closure, op_vararg, unknown, info, valid,
}
use vex_lua.Bytecode.Instruction.{
  opcode_of, a_of, b_of, c_of, bx_of, sbx_of, is_constant_rk, index_k,
}
use vex_lua.Bytecode.Proto.{
  Constant, ConstantKind, constant_nil, constant_boolean, constant_number, constant_string, LocVar,
  Body, Proto, Protos, proto, done, child, num_protos,
}

pub data Reason : Type 0 where
  nil_proto line_info_size upvalue_names_size bad_opcode a_exceeds_b b_exceeds_c : Reason
  negative_start negative_end start_after_end range_exceeds : ℕ → LocVar → Reason
  register_range constant_range upvalue_range child_range : ℕ → Reason
  jump_range trailing_jump_range : ℤ → Reason
  not_string_global missing_jump bad_flag missing_extra : Reason
  not_jump : Opcode → Reason

-- `pc` is -1 where no instruction is at fault.
pub record ValidationError : Type 0 where
  pub pc : ℤ
  pub op : Opcode
  pub reason : Reason

abbrev pub Checked : Type 0
Checked = Result ValidationError (Unit {0})

abbrev pub pass : Checked
pass = ok tt

abbrev pub whole : Reason → ValidationError
whole r = record { pc = negsuc 0; op = op_move; reason = r }

-- `target < 0 || target >= size` fails.
abbrev pub in_code : ℤ → ℕ → Bool
in_code (pos n) size = ltb n size
in_code (negsuc n) size = false

abbrev pub is_string : ConstantKind → Bool
is_string constant_string = true
is_string _ = false

-- `op == OP_JMP`
abbrev pub is_jump : Opcode → Bool
is_jump op_jmp = true
is_jump _ = false

-- `if test { ... }`
abbrev pub check_if : Bool → Checked → Checked
check_if test m = if test then m else pass

module _ (owner : Body) (children pc : ℕ) (op : Opcode) where
  abbrev pub fail : Reason → ValidationError
  fail r = record { pc = pos pc; op = op; reason = r }

  unfoldable pub check_reg : ℕ → Checked
  check_reg reg = guard (ltb reg owner.max_stack_size) (fail (register_range reg))

  unfoldable pub check_constant : ℕ → Checked
  check_constant idx = guard (ltb idx (length owner.constants)) (fail (constant_range idx))

  unfoldable pub check_rk : ℕ → Checked
  unfolding check_reg check_constant
  check_rk operand =
      if is_constant_rk operand then check_constant (index_k operand) else check_reg operand

  unfoldable pub check_jump : ℤ → Checked
  check_jump sbx =
      let target = pos (pc + 1) +ℤ sbx in
      guard (in_code target (length owner.instructions)) (fail (jump_range target))

  unfoldable pub check_trailing_at : Option ℕ → Checked
  check_trailing_at none = err (fail missing_jump)
  check_trailing_at (some jump) = do
    guard (is_jump (opcode_of jump)) (fail (not_jump (opcode_of jump)))
    let target = pos (pc + 2) +ℤ sbx_of jump
    guard (in_code target (length owner.instructions)) (fail (trailing_jump_range target))

  unfoldable pub check_trailing_test_jump : Checked
  unfolding check_trailing_at
  check_trailing_test_jump = check_trailing_at (get_elem? owner.instructions (pc + 1))

  unfoldable pub check_global_at : ℕ → Option Constant → Checked
  check_global_at idx none = err (fail (constant_range idx))
  check_global_at idx (some k) = guard (is_string k.kind) (fail not_string_global)

  unfoldable pub check_global : ℕ → Checked
  unfolding check_global_at
  check_global idx = check_global_at idx (get_elem? owner.constants idx)

  unfoldable pub check_upvalue : ℕ → Checked
  check_upvalue index = guard (ltb index owner.num_upvalues) (fail (upvalue_range index))

  unfoldable pub check_child : ℕ → Checked
  check_child index = guard (ltb index children) (fail (child_range index))

  abbrev pub check_flag : ℕ → Checked
  check_flag c = guard (leb c 1) (fail bad_flag)

  -- The `switch`.
  unfoldable pub check_operands : Opcode → ℕ → ℕ → ℕ → ℕ → ℤ → Checked
  check_operands op_move a b c bx sbx = check_reg b
  check_operands op_loadk a b c bx sbx = check_constant bx
  check_operands op_loadbool a b c bx sbx = pass
  check_operands op_loadnil a b c bx sbx = do guard (leb a b) (fail a_exceeds_b); check_reg b
  check_operands op_getupval a b c bx sbx = check_upvalue b
  check_operands op_setupval a b c bx sbx = check_upvalue b
  check_operands op_getglobal a b c bx sbx = check_global bx
  check_operands op_setglobal a b c bx sbx = check_global bx
  check_operands op_gettable a b c bx sbx = do check_reg b; check_rk c
  check_operands op_settable a b c bx sbx = do check_reg a; check_rk b; check_rk c
  check_operands op_newtable a b c bx sbx = pass
  check_operands op_self a b c bx sbx = do check_reg (a + 1); check_reg b; check_rk c
  check_operands op_add a b c bx sbx = do check_rk b; check_rk c
  check_operands op_sub a b c bx sbx = do check_rk b; check_rk c
  check_operands op_mul a b c bx sbx = do check_rk b; check_rk c
  check_operands op_div a b c bx sbx = do check_rk b; check_rk c
  check_operands op_mod a b c bx sbx = do check_rk b; check_rk c
  check_operands op_pow a b c bx sbx = do check_rk b; check_rk c
  check_operands op_eq a b c bx sbx = do check_rk b; check_rk c; check_trailing_test_jump
  check_operands op_lt a b c bx sbx = do check_rk b; check_rk c; check_trailing_test_jump
  check_operands op_le a b c bx sbx = do check_rk b; check_rk c; check_trailing_test_jump
  check_operands op_unm a b c bx sbx = check_reg b
  check_operands op_not a b c bx sbx = check_reg b
  check_operands op_len a b c bx sbx = check_reg b
  check_operands op_concat a b c bx sbx = do
    guard (leb b c) (fail b_exceeds_c)
    check_reg b
    check_reg c
  check_operands op_jmp a b c bx sbx = check_jump sbx
  check_operands op_test a b c bx sbx = do check_flag c; check_trailing_test_jump
  check_operands op_testset a b c bx sbx = do check_reg b; check_flag c; check_trailing_test_jump
  check_operands op_call a b c bx sbx = do
    check_if (ltb 0 b) (check_reg (a + b - 1))
    check_if (ltb 1 c) (check_reg (a + c - 2))
  check_operands op_tailcall a b c bx sbx = do
    check_if (ltb 0 b) (check_reg (a + b - 1))
    check_if (ltb 1 c) (check_reg (a + c - 2))
  check_operands op_return a b c bx sbx = do check_reg a; check_if (ltb 1 b) (check_reg (a + b - 2))
  check_operands op_forloop a b c bx sbx = do check_reg (a + 3); check_jump sbx
  check_operands op_forprep a b c bx sbx = do check_reg (a + 3); check_jump sbx
  check_operands op_tforloop a b c bx sbx = do check_reg (a + 2 + c); check_trailing_test_jump
  check_operands op_setlist a b c bx sbx = do
    check_if (ltb 0 b) (check_reg (a + b))
    guard (not (c == 0 && leb (length owner.instructions) (pc + 1))) (fail missing_extra)
  check_operands op_close a b c bx sbx = check_reg a
  check_operands op_closure a b c bx sbx = check_child bx
  check_operands op_vararg a b c bx sbx = check_if (ltb 0 b) (check_reg (a + b - 1))
  check_operands (unknown n) a b c bx sbx = pass

  -- `validateInstruction`, for the opcode of the word
  unfoldable pub validate_instruction : ℕ → Checked
  validate_instruction word = do
    check_if (info op).sets_a (check_reg (a_of word))
    check_operands op (a_of word) (b_of word) (c_of word) (bx_of word) (sbx_of word)

-- The loop over the code, from the instruction at `pc` on.
unfoldable pub validate_from : Body → ℕ → ℕ → List ℕ → Checked
validate_from b children pc [] = pass
validate_from b children pc (word ∷ rest) = do
  guard (valid (opcode_of word)) (record { pc = pos pc; op = opcode_of word; reason = bad_opcode })
  validate_instruction b children pc (opcode_of word) word
  validate_from b children (suc pc) rest

-- The loop over the local variables, from the one at `index` on.
unfoldable pub validate_locals : ℕ → ℕ → List LocVar → Checked
validate_locals size index [] = pass
validate_locals size index (v ∷ rest) = do
  guard (leb_ℤ (pos 0) v.start_pc) (whole (negative_start index v))
  guard (leb_ℤ (pos 0) v.end_pc) (whole (negative_end index v))
  guard (leb_ℤ v.start_pc v.end_pc) (whole (start_after_end index v))
  guard (leb_ℤ v.start_pc (pos size) && leb_ℤ v.end_pc (pos size)) (whole (range_exceeds index v))
  validate_locals size (suc index) rest

-- What `validateProto` checks before it goes on to the children.
unfoldable pub validate_body : Body → ℕ → Checked
validate_body b children = do
  guard (not (ltb 0 (length b.line_info)) || length b.line_info == length b.instructions)
      (whole line_info_size)
  validate_locals (length b.instructions) 0 b.loc_vars
  guard (not (ltb 0 (length b.upvalue_names)) || length b.upvalue_names == b.num_upvalues)
      (whole upvalue_names_size)
  validate_from b children 0 b.instructions

-- `validateProto` and its loop over the children
unfoldable mutual
  pub validate : Proto → Checked
  validate (proto b ps) = do validate_body b (num_protos ps); validate_all ps

  pub validate_all : Protos → Checked
  validate_all done = pass
  validate_all (child p rest) = do validate p; validate_all rest

-- `ValidateProto`: a nil pointer is `none`.
unfoldable pub validate_proto : Option Proto → Checked
validate_proto none = err (whole nil_proto)
validate_proto (some p) = validate p
