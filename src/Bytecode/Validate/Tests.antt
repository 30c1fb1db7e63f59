-- ===== src/Bytecode/Validate/Tests.antt =====
-- Runs of the validator and instances of its laws.
use vex_lua.Base.{◌≡◌, refl, err, false, [], ◌∷◌, some, arith, All}
use vex_lua.Base.Int.{pos, ◌+ℤ◌}
use vex_lua.Bytecode.Opcode.{op_setglobal, op_setupval, op_setlist, op_jmp, opcode, valid, info}
use vex_lua.Bytecode.Instruction.{
  opcode_of, a_of, b_of, c_of, bx_of, sbx_of, is_constant_rk, index_k,
}
use vex_lua.Bytecode.Proto.{Body, Proto, proto, done, child, num_protos, constant_string, Constant}
use vex_lua.Bytecode.Validate.{
  validate_proto, validate, validate_body, validate_locals, validate_from, validate_instruction,
  check_operands, check_reg, check_constant, check_rk, check_jump, check_trailing_test_jump,
  check_trailing_at, check_global, check_global_at, check_upvalue, check_child, pass, jump_range,
}
use vex_lua.Bytecode.Validate.Whole.{Within, here, inside, first, validate_proto-IsScoped, IsScoped}
use vex_lua.Bytecode.Validate.Unchecked.{IsAccepted, validate_proto_unchecked_a}

program : Unit {0}
unfolding validate_proto validate validate_body validate_locals validate_from validate_instruction
    check_operands check_reg check_constant check_rk check_jump check_trailing_test_jump
    check_trailing_at check_global check_global_at check_upvalue check_child opcode valid info
    opcode_of a_of b_of c_of bx_of sbx_of is_constant_rk index_k num_protos ◌+ℤ◌
program = tt

abbrev text : Constant
text = record { kind = constant_string; boolean = false; number = 0; text = "x" }

-- LOADK R0 K0; EQ R0 K0; JMP to the next word; RETURN R0
abbrev leaf_body : Body
leaf_body = record {
  source = "leaf";
  line_defined = pos 1;
  last_line_def = pos 2;
  num_upvalues = 1;
  num_params = 0;
  is_vararg = 0;
  max_stack_size = 2;
  instructions = 1 ∷ 4194327 ∷ 2147467286 ∷ 8388638 ∷ [];
  constants = text ∷ [];
  line_info = [];
  loc_vars = record { name = "v"; start_pc = pos 1; end_pc = pos 4 } ∷ [];
  upvalue_names = [];
}

abbrev leaf : Proto
leaf = proto leaf_body done

-- CLOSURE R1 child 0; RETURN R0
abbrev top : Proto
top =
    proto (record leaf_body { instructions = 100 ∷ 8388638 ∷ []; loc_vars = [] }) (child leaf done)

top_accepted : validate_proto (some top) ≡ pass
unfolding program
top_accepted = refl

-- The jump of a `JMP` at the last word leaves the code.
last_jump :
    validate_proto
      (some (proto (record leaf_body { instructions = 2147467286 ∷ []; loc_vars = [] }) done))
    ≡ err (record { pc = pos 0; op = op_jmp; reason = jump_range (pos 1) })
unfolding program
last_jump = refl

leaf_in_top : Within leaf top
leaf_in_top = inside (first here)

validate_proto-IsScoped_example : All (IsScoped 4) leaf_body.loc_vars
validate_proto-IsScoped_example = validate_proto-IsScoped leaf_in_top top_accepted

-- A `SETGLOBAL` of register 255, with a stack of two.
validate_proto_unchecked_a_example :
    IsAccepted op_setglobal 2 255 × IsAccepted op_setupval 2 255 × IsAccepted op_setlist 2 255
validate_proto_unchecked_a_example = validate_proto_unchecked_a 2 255 (omega arith)
