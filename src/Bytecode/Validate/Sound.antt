-- ===== src/Bytecode/Validate/Sound.antt =====
-- internal/bytecode/validate.go: the checks of `validateInstruction`, opcode by opcode.
use vex_lua.Base.{ℕ, ◌+◌, ◌-◌, ◌<◌, ◌≡◌, true, length, All, arith}
use vex_lua.Base.Int.{ℤ}
use vex_lua.Bytecode.Opcode.{
  Opcode, op_move, op_loadk, op_loadbool, op_loadnil, op_getupval, op_getglobal, op_gettable,
  op_setglobal, op_setupval, op_settable, op_newtable, op_self, op_add, op_sub, op_mul, op_div,
  op_mod, op_pow, op_unm, op_not, op_len, op_concat, op_jmp, op_eq, op_lt, op_le, op_test,
  op_testset, op_call, op_tailcall, op_return, op_forloop, op_forprep, op_tforloop, op_setlist,
  op_close, op_closure, op_vararg, unknown, info,
}
use vex_lua.Bytecode.Proto.{Body}
use vex_lua.Bytecode.Validate.{
  pass, check_reg, check_rk, check_if, check_trailing_test_jump, check_operands,
}
use vex_lua.Bytecode.Validate.Safe.{
  rk_registers, rk_constants, InCode, IsStringAt, registers, constants_read, decides, jumps,
  globals_named, upvalues_used, children_made,
}
use vex_lua.Bytecode.Validate.Checks

module _ (owner : Body) (children pc : ℕ) (op : Opcode) where
  reg_lem : (r : ℕ) → check_reg owner children pc op r ≡ pass → r < owner.max_stack_size
  reg_lem = Checks.check_reg_lem owner children pc op

  rk_lem :
      (x : ℕ)
      → check_rk owner children pc op x ≡ pass
      → All (λ r. r < owner.max_stack_size) (rk_registers x)
        × All (λ k. k < length owner.constants) (rk_constants x)
  rk_lem = Checks.check_rk_lem owner children pc op

  pub registers_sound :
      (o : Opcode) (a b c bx : ℕ) (sbx : ℤ)
      → check_if (info o).sets_a (check_reg owner children pc op a) ≡ pass
      → check_operands owner children pc op o a b c bx sbx ≡ pass
      → All (λ r. r < owner.max_stack_size) (registers o a b c)
  unfolding info check_operands
  registers_sound op_move a b c bx sbx s h = ground (arith, reg_lem a, reg_lem b)
  registers_sound op_loadk a b c bx sbx s h = ground (arith, reg_lem a)
  registers_sound op_loadbool a b c bx sbx s h = ground (arith, reg_lem a)
  registers_sound op_loadnil a b c bx sbx s h = ground (arith, reg_lem a, reg_lem b)
  registers_sound op_getupval a b c bx sbx s h = ground (arith, reg_lem a)
  registers_sound op_getglobal a b c bx sbx s h = ground (arith, reg_lem a)
  registers_sound op_gettable a b c bx sbx s h = ground (arith, reg_lem a, reg_lem b, rk_lem c)
  registers_sound op_setglobal a b c bx sbx s h = tt
  registers_sound op_setupval a b c bx sbx s h = tt
  registers_sound op_settable a b c bx sbx s h = ground (arith, reg_lem a, rk_lem b, rk_lem c)
  registers_sound op_newtable a b c bx sbx s h = ground (arith, reg_lem a)
  registers_sound op_self a b c bx sbx s h =
      ground (arith, reg_lem a, reg_lem (a + 1), reg_lem b, rk_lem c)
  registers_sound op_add a b c bx sbx s h = ground (arith, reg_lem a, rk_lem b, rk_lem c)
  registers_sound op_sub a b c bx sbx s h = ground (arith, reg_lem a, rk_lem b, rk_lem c)
  registers_sound op_mul a b c bx sbx s h = ground (arith, reg_lem a, rk_lem b, rk_lem c)
  registers_sound op_div a b c bx sbx s h = ground (arith, reg_lem a, rk_lem b, rk_lem c)
  registers_sound op_mod a b c bx sbx s h = ground (arith, reg_lem a, rk_lem b, rk_lem c)
  registers_sound op_pow a b c bx sbx s h = ground (arith, reg_lem a, rk_lem b, rk_lem c)
  registers_sound op_unm a b c bx sbx s h = ground (arith, reg_lem a, reg_lem b)
  registers_sound op_not a b c bx sbx s h = ground (arith, reg_lem a, reg_lem b)
  registers_sound op_len a b c bx sbx s h = ground (arith, reg_lem a, reg_lem b)
  registers_sound op_concat a b c bx sbx s h = ground (arith, reg_lem a, reg_lem b, reg_lem c)
  registers_sound op_jmp a b c bx sbx s h = tt
  registers_sound op_eq a b c bx sbx s h = ground (arith, rk_lem b, rk_lem c)
  registers_sound op_lt a b c bx sbx s h = ground (arith, rk_lem b, rk_lem c)
  registers_sound op_le a b c bx sbx s h = ground (arith, rk_lem b, rk_lem c)
  registers_sound op_test a b c bx sbx s h = ground (arith, reg_lem a)
  registers_sound op_testset a b c bx sbx s h = ground (arith, reg_lem a, reg_lem b)
  registers_sound op_call a b c bx sbx s h =
      ground (arith, reg_lem a, reg_lem (a + b - 1), reg_lem (a + c - 2))
  registers_sound op_tailcall a b c bx sbx s h =
      ground (arith, reg_lem a, reg_lem (a + b - 1), reg_lem (a + c - 2))
  registers_sound op_return a b c bx sbx s h = ground (arith, reg_lem a, reg_lem (a + b - 2))
  registers_sound op_forloop a b c bx sbx s h = ground (arith, reg_lem a, reg_lem (a + 3))
  registers_sound op_forprep a b c bx sbx s h = ground (arith, reg_lem a, reg_lem (a + 3))
  registers_sound op_tforloop a b c bx sbx s h = ground (arith, reg_lem (a + 2 + c))
  registers_sound op_setlist a b c bx sbx s h = ground (arith, reg_lem (a + b))
  registers_sound op_close a b c bx sbx s h = ground (arith, reg_lem a)
  registers_sound op_closure a b c bx sbx s h = ground (arith, reg_lem a)
  registers_sound op_vararg a b c bx sbx s h = ground (arith, reg_lem a, reg_lem (a + b - 1))
  registers_sound (unknown n) a b c bx sbx s h = tt

  pub constants_sound :
      (o : Opcode) (a b c bx : ℕ) (sbx : ℤ)
      → check_operands owner children pc op o a b c bx sbx ≡ pass
      → All (λ k. k < length owner.constants) (constants_read o b c bx)
  unfolding check_operands
  constants_sound op_loadk a b c bx sbx h =
      ground (arith, Checks.check_constant_lem owner children pc op bx)
  constants_sound op_gettable a b c bx sbx h = ground (arith, rk_lem c)
  constants_sound op_settable a b c bx sbx h = ground (arith, rk_lem b, rk_lem c)
  constants_sound op_self a b c bx sbx h = ground (arith, rk_lem c)
  constants_sound op_add a b c bx sbx h = ground (arith, rk_lem b, rk_lem c)
  constants_sound op_sub a b c bx sbx h = ground (arith, rk_lem b, rk_lem c)
  constants_sound op_mul a b c bx sbx h = ground (arith, rk_lem b, rk_lem c)
  constants_sound op_div a b c bx sbx h = ground (arith, rk_lem b, rk_lem c)
  constants_sound op_mod a b c bx sbx h = ground (arith, rk_lem b, rk_lem c)
  constants_sound op_pow a b c bx sbx h = ground (arith, rk_lem b, rk_lem c)
  constants_sound op_eq a b c bx sbx h = ground (arith, rk_lem b, rk_lem c)
  constants_sound op_lt a b c bx sbx h = ground (arith, rk_lem b, rk_lem c)
  constants_sound op_le a b c bx sbx h = ground (arith, rk_lem b, rk_lem c)
  constants_sound _ a b c bx sbx h = tt

  pub globals_sound :
      (o : Opcode) (a b c bx : ℕ) (sbx : ℤ)
      → check_operands owner children pc op o a b c bx sbx ≡ pass
      → All (IsStringAt owner) (globals_named o bx)
  unfolding check_operands
  globals_sound op_getglobal a b c bx sbx h =
      ground (arith, Checks.check_global_lem owner children pc op bx)
  globals_sound op_setglobal a b c bx sbx h =
      ground (arith, Checks.check_global_lem owner children pc op bx)
  globals_sound _ a b c bx sbx h = tt

  pub upvalues_sound :
      (o : Opcode) (a b c bx : ℕ) (sbx : ℤ)
      → check_operands owner children pc op o a b c bx sbx ≡ pass
      → All (λ u. u < owner.num_upvalues) (upvalues_used o b)
  unfolding check_operands
  upvalues_sound op_getupval a b c bx sbx h =
      ground (arith, Checks.check_upvalue_lem owner children pc op b)
  upvalues_sound op_setupval a b c bx sbx h =
      ground (arith, Checks.check_upvalue_lem owner children pc op b)
  upvalues_sound _ a b c bx sbx h = tt

  pub children_sound :
      (o : Opcode) (a b c bx : ℕ) (sbx : ℤ)
      → check_operands owner children pc op o a b c bx sbx ≡ pass
      → All (λ p. p < children) (children_made o bx)
  unfolding check_operands
  children_sound op_closure a b c bx sbx h =
      ground (arith, Checks.check_child_lem owner children pc op bx)
  children_sound _ a b c bx sbx h = tt

  pub jumps_sound :
      (o : Opcode) (a b c bx : ℕ) (sbx : ℤ)
      → check_operands owner children pc op o a b c bx sbx ≡ pass
      → All (InCode (length owner.instructions)) (jumps o pc sbx)
  unfolding check_operands
  jumps_sound op_jmp a b c bx sbx h = ground (arith, Checks.check_jump_lem owner children pc op sbx)
  jumps_sound op_forloop a b c bx sbx h =
      ground (arith, Checks.check_jump_lem owner children pc op sbx)
  jumps_sound op_forprep a b c bx sbx h =
      ground (arith, Checks.check_jump_lem owner children pc op sbx)
  jumps_sound _ a b c bx sbx h = tt

  pub trailing_sound :
      (o : Opcode) (a b c bx : ℕ) (sbx : ℤ)
      → check_operands owner children pc op o a b c bx sbx ≡ pass
      → decides o ≡ true
      → check_trailing_test_jump owner children pc op ≡ pass
  unfolding check_operands
  trailing_sound op_eq a b c bx sbx h = λ d. ground arith
  trailing_sound op_lt a b c bx sbx h = λ d. ground arith
  trailing_sound op_le a b c bx sbx h = λ d. ground arith
  trailing_sound op_test a b c bx sbx h = λ d. ground arith
  trailing_sound op_testset a b c bx sbx h = λ d. ground arith
  trailing_sound op_tforloop a b c bx sbx h = λ d. ground arith
  trailing_sound _ a b c bx sbx h = λ d. cc
