-- ===== src/Bytecode/Validate/Safe.antt =====
-- The operands of an instruction by its opcode, apart from the order in which the validator checks
-- them.
use vex_lua.Base.{
  ℕ, ◌+◌, ◌-◌, ◌<◌, ◌≡◌, Bool, true, false, List, [], ◌∷◌, ◌++◌, some, length, get_elem?, All,
  if◌then◌else◌, ltb,
}
use vex_lua.Base.Int.{ℤ, pos, negsuc, ◌+ℤ◌}
use vex_lua.Bytecode.Opcode.{
  Opcode, op_move, op_loadk, op_loadbool, op_loadnil, op_getupval, op_getglobal, op_gettable,
  op_setglobal, op_setupval, op_settable, op_newtable, op_self, op_add, op_sub, op_mul, op_div,
  op_mod, op_pow, op_unm, op_not, op_len, op_concat, op_jmp, op_eq, op_lt, op_le, op_test,
  op_testset, op_call, op_tailcall, op_return, op_forloop, op_forprep, op_tforloop, op_setlist,
  op_close, op_closure, op_vararg, valid,
}
use vex_lua.Bytecode.Instruction.{
  opcode_of, a_of, b_of, c_of, bx_of, sbx_of, is_constant_rk, index_k,
}
use vex_lua.Bytecode.Proto.{Body, constant_string, Constant}

-- The register that a register-or-constant operand names, and the constant.
abbrev pub rk_registers : ℕ → List ℕ
rk_registers x = if is_constant_rk x then [] else x ∷ []

abbrev pub rk_constants : ℕ → List ℕ
rk_constants x = if is_constant_rk x then index_k x ∷ [] else []

-- The registers of an instruction: the last one of a range, where it names a range. Three registers
-- that an instruction reads are not among them, since the validator does not look at them: the `A` of
-- `SETGLOBAL`, of `SETUPVAL`, and of `SETLIST` with B = 0.
abbrev pub registers : Opcode → ℕ → ℕ → ℕ → List ℕ
registers op_move a b c = a ∷ b ∷ []
registers op_loadk a b c = a ∷ []
registers op_loadbool a b c = a ∷ []
registers op_loadnil a b c = a ∷ b ∷ []
registers op_getupval a b c = a ∷ []
registers op_getglobal a b c = a ∷ []
registers op_gettable a b c = a ∷ b ∷ rk_registers c
registers op_settable a b c = a ∷ (rk_registers b ++ rk_registers c)
registers op_newtable a b c = a ∷ []
registers op_self a b c = a ∷ (a + 1) ∷ b ∷ rk_registers c
registers op_add a b c = a ∷ (rk_registers b ++ rk_registers c)
registers op_sub a b c = a ∷ (rk_registers b ++ rk_registers c)
registers op_mul a b c = a ∷ (rk_registers b ++ rk_registers c)
registers op_div a b c = a ∷ (rk_registers b ++ rk_registers c)
registers op_mod a b c = a ∷ (rk_registers b ++ rk_registers c)
registers op_pow a b c = a ∷ (rk_registers b ++ rk_registers c)
registers op_unm a b c = a ∷ b ∷ []
registers op_not a b c = a ∷ b ∷ []
registers op_len a b c = a ∷ b ∷ []
registers op_concat a b c = a ∷ b ∷ c ∷ []
registers op_eq a b c = rk_registers b ++ rk_registers c
registers op_lt a b c = rk_registers b ++ rk_registers c
registers op_le a b c = rk_registers b ++ rk_registers c
registers op_test a b c = a ∷ []
registers op_testset a b c = a ∷ b ∷ []
registers op_call a b c =
    a ∷ ((if ltb 0 b then (a + b - 1) ∷ [] else []) ++ (if ltb 1 c then (a + c - 2) ∷ [] else []))
registers op_tailcall a b c =
    a ∷ ((if ltb 0 b then (a + b - 1) ∷ [] else []) ++ (if ltb 1 c then (a + c - 2) ∷ [] else []))
registers op_return a b c = a ∷ (if ltb 1 b then (a + b - 2) ∷ [] else [])
registers op_forloop a b c = a ∷ (a + 3) ∷ []
registers op_forprep a b c = a ∷ (a + 3) ∷ []
registers op_tforloop a b c = (a + 2 + c) ∷ []
registers op_setlist a b c = if ltb 0 b then (a + b) ∷ [] else []
registers op_close a b c = a ∷ []
registers op_closure a b c = a ∷ []
registers op_vararg a b c = a ∷ (if ltb 0 b then (a + b - 1) ∷ [] else [])
registers _ a b c = []

abbrev pub constants_read : Opcode → ℕ → ℕ → ℕ → List ℕ
constants_read op_loadk b c bx = bx ∷ []
constants_read op_gettable b c bx = rk_constants c
constants_read op_settable b c bx = rk_constants b ++ rk_constants c
constants_read op_self b c bx = rk_constants c
constants_read op_add b c bx = rk_constants b ++ rk_constants c
constants_read op_sub b c bx = rk_constants b ++ rk_constants c
constants_read op_mul b c bx = rk_constants b ++ rk_constants c
constants_read op_div b c bx = rk_constants b ++ rk_constants c
constants_read op_mod b c bx = rk_constants b ++ rk_constants c
constants_read op_pow b c bx = rk_constants b ++ rk_constants c
constants_read op_eq b c bx = rk_constants b ++ rk_constants c
constants_read op_lt b c bx = rk_constants b ++ rk_constants c
constants_read op_le b c bx = rk_constants b ++ rk_constants c
constants_read _ b c bx = []

-- The constants that must be strings.
abbrev pub globals_named : Opcode → ℕ → List ℕ
globals_named op_getglobal bx = bx ∷ []
globals_named op_setglobal bx = bx ∷ []
globals_named _ bx = []

abbrev pub upvalues_used : Opcode → ℕ → List ℕ
upvalues_used op_getupval b = b ∷ []
upvalues_used op_setupval b = b ∷ []
upvalues_used _ b = []

abbrev pub children_made : Opcode → ℕ → List ℕ
children_made op_closure bx = bx ∷ []
children_made _ bx = []

-- Where an instruction may jump to by itself, from its own place.
abbrev pub jumps : Opcode → ℕ → ℤ → List ℤ
jumps op_jmp pc sbx = (pos (pc + 1) +ℤ sbx) ∷ []
jumps op_forloop pc sbx = (pos (pc + 1) +ℤ sbx) ∷ []
jumps op_forprep pc sbx = (pos (pc + 1) +ℤ sbx) ∷ []
jumps _ pc sbx = []

-- Whether an instruction decides over the jump that follows it.
abbrev pub decides : Opcode → Bool
decides op_eq = true
decides op_lt = true
decides op_le = true
decides op_test = true
decides op_testset = true
decides op_tforloop = true
decides _ = false

abbrev pub InCode : ℕ → ℤ → Type 0
InCode size (pos n) = n < size
InCode size (negsuc n) = ⊥

-- A jump that stands behind a test, at the place before `pc + 2`.
pub record IsJumpBehind (owner : Body) (pc : ℕ) : Type 0 where
  pub word : ℕ
  pub present : get_elem? owner.instructions (pc + 1) ≡ some word
  pub jump : opcode_of word ≡ op_jmp
  pub target : InCode (length owner.instructions) (pos (pc + 2) +ℤ sbx_of word)

abbrev pub IsStringAt : Body → ℕ → Type 0
IsStringAt owner k =
    (v : Constant) × (get_elem? owner.constants k ≡ some v) × (v.kind ≡ constant_string)

-- Everything that the instruction names is there.
pub record IsSafe (owner : Body) (children pc : ℕ) (op : Opcode) (a b c bx : ℕ) (sbx : ℤ)
    : Type 0 where
  pub registers_ok : All (λ r. r < owner.max_stack_size) (registers op a b c)
  pub constants_ok : All (λ k. k < length owner.constants) (constants_read op b c bx)
  pub globals_ok : All (IsStringAt owner) (globals_named op bx)
  pub upvalues_ok : All (λ u. u < owner.num_upvalues) (upvalues_used op b)
  pub children_ok : All (λ p. p < children) (children_made op bx)
  pub jumps_ok : All (InCode (length owner.instructions)) (jumps op pc sbx)
  pub behind_ok : decides op ≡ true → IsJumpBehind owner pc

abbrev pub IsSafeWord : Body → ℕ → ℕ → ℕ → Type 0
IsSafeWord owner children pc word =
    (valid (opcode_of word) ≡ true)
    × IsSafe owner children pc (opcode_of word) (a_of word) (b_of word) (c_of word) (bx_of word)
        (sbx_of word)
