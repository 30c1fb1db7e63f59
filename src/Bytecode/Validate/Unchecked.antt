-- ===== src/Bytecode/Validate/Unchecked.antt =====
-- What the validator leaves unchecked: the register A that `SETGLOBAL`, `SETUPVAL`, and `SETLIST`
-- with no count of its own, read.
use vex_lua.Base.{
  ℕ, ◌≤◌, ◌<◌, ◌≡◌, ◌≢◌, refl, subst, sym, true, false, [], ◌∷◌, some, get_elem?, arith,
}
use vex_lua.Base.Int.{pos}
use vex_lua.Bytecode.Opcode.{Opcode, op_setglobal, op_setupval, op_setlist, info, valid}
use vex_lua.Bytecode.Instruction.{
  opcode_of, a_of, b_of, c_of, bx_of, pos_b, size_b, pos_c, size_c, pos_bx, size_bx, max_arg_a,
}
use vex_lua.Bytecode.Instruction.Fields.{field_lem}
use vex_lua.Bytecode.Instruction.RoundTrip.{Holds, create_abc-Holds}
use vex_lua.Bytecode.Proto.{Body, Proto, proto, done, body, num_protos, Constant, constant_string}
use vex_lua.Bytecode.Validate.{
  pass, validate_instruction, check_operands, check_global, check_global_at, check_upvalue,
  validate_from, validate_locals, validate_body, validate, validate_proto,
}
use vex_lua.Bytecode.Validate.Safe.{IsStringAt}

-- None of the three looks at its register.
unchecked_a :
    (owner : Body) (children pc word : ℕ)
    → (IsStringAt owner (bx_of word)
        → validate_instruction owner children pc op_setglobal word ≡ pass)
      × (b_of word < owner.num_upvalues
          → validate_instruction owner children pc op_setupval word ≡ pass)
      × (b_of word ≡ 0
          → c_of word ≢ 0
          → validate_instruction owner children pc op_setlist word ≡ pass)
unfolding validate_instruction check_operands check_global check_global_at check_upvalue info
unchecked_a owner children pc word = (
  λ (v, e, k). rw (e, check_global_at, k),
  λ below. ground arith,
  λ none_counted some_block. ground (arith, none_counted, some_block),
)

abbrev name : Constant
name = record { kind = constant_string; boolean = false; number = 0; text = "x" }

-- A prototype with one instruction, one constant and one upvalue.
abbrev one_word : ℕ → ℕ → Body
one_word size word = record {
  source = "x";
  line_defined = pos 0;
  last_line_def = pos 0;
  num_upvalues = 1;
  num_params = 0;
  is_vararg = 0;
  max_stack_size = size;
  instructions = word ∷ [];
  constants = name ∷ [];
  line_info = [];
  loc_vars = [];
  upvalue_names = [];
}

one_word_accepted :
    (size word : ℕ) (op : Opcode)
    → opcode_of word ≡ op
    → valid op ≡ true
    → validate_instruction (one_word size word) 0 0 op word ≡ pass
    → validate_proto (some (proto (one_word size word) done)) ≡ pass
unfolding validate_proto validate validate_body validate_locals validate_from num_protos
one_word_accepted size word op same good passes = rw (same, good, passes) refl

-- A prototype that the validator accepts, with a stack of `size` registers, whose first instruction
-- is one of the opcode and has `a` as its register A and 0 as its B.
abbrev pub IsAccepted : Opcode → ℕ → ℕ → Type 0
IsAccepted op size a =
    (p : Proto) × (word : ℕ) × (validate_proto (some p) ≡ pass)
    × ((body p).max_stack_size ≡ size)
    × (get_elem? (body p).instructions 0 ≡ some word)
    × (opcode_of word ≡ op)
    × (a_of word ≡ a)
    × (b_of word ≡ 0)

accepted :
    (op : Opcode) (size a c word : ℕ)
    → valid op ≡ true
    → Holds word op a 0 c
    → validate_instruction (one_word size word) 0 0 op word ≡ pass
    → IsAccepted op size a
accepted op size a c word good holds passes = (
  proto (one_word size word) done,
  word,
  one_word_accepted size word op holds.opcode_field good passes,
  refl,
  refl,
  holds.opcode_field,
  holds.a_field,
  holds.b_field,
)

no_bx : (word : ℕ) → b_of word ≡ 0 → c_of word ≡ 0 → bx_of word ≡ 0
unfolding b_of c_of bx_of
no_bx word b c = omega (
  arith,
  b,
  c,
  field_lem word pos_b size_b,
  field_lem word pos_c size_c,
  field_lem word pos_bx size_bx,
)

-- For every size of the stack and every operand A, however far past the stack, `ValidateProto`
-- accepts prototypes whose first instruction is a `SETGLOBAL`, a `SETUPVAL`, or a `SETLIST` with
-- B = 0, of that register.
pub validate_proto_unchecked_a :
    (size a : ℕ)
    → a ≤ max_arg_a
    → IsAccepted op_setglobal size a × IsAccepted op_setupval size a × IsAccepted op_setlist size a
unfolding valid
validate_proto_unchecked_a size a fits =
    let (g, made_g, global) =
      create_abc-Holds op_setglobal a 0 0 refl fits (omega arith) (omega arith) in
    let (u, made_u, upvalue) =
      create_abc-Holds op_setupval a 0 0 refl fits (omega arith) (omega arith) in
    let (l, made_l, setlist) =
      create_abc-Holds op_setlist a 0 1 refl fits (omega arith) (omega arith) in
    let first = no_bx g global.b_field global.c_field in
    (
      accepted op_setglobal size a 0 g refl global (
          (unchecked_a (one_word size g) 0 0 g).0
            (subst (IsStringAt (one_word size g)) (sym first) (name, refl, refl))),
      accepted op_setupval size a 0 u refl upvalue
          ((unchecked_a (one_word size u) 0 0 u).1 (omega (arith, upvalue.b_field))),
      accepted op_setlist size a 1 l refl setlist (
          (unchecked_a (one_word size l) 0 0 l).2 setlist.b_field
            (λ z. omega (arith, z, setlist.c_field))),
    )
