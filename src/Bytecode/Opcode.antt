-- ===== src/Bytecode/Opcode.antt =====
-- internal/bytecode/opcode.go: the opcodes, their numbers and the table of their operand modes.
-- An `Opcode` of the source is any byte; `unknown n` stands for the byte that
-- is `n` past the last of them.
pub mod Codes
use vex_lua.Base.{ℕ, ◌+◌, ◌-◌, Bool, true, false, List, [], ◌∷◌, get_or, ltb}
use Prim.Native.String.{String}

pub data OpMode : Type 0 where
  mode_abc mode_abx mode_asbx : OpMode

pub data ArgMode : Type 0 where
  arg_n arg_u arg_r arg_k : ArgMode

pub data Opcode : Type 0 where
  op_move op_loadk op_loadbool op_loadnil op_getupval op_getglobal op_gettable : Opcode
  op_setglobal op_setupval op_settable op_newtable op_self op_add op_sub op_mul : Opcode
  op_div op_mod op_pow op_unm op_not op_len op_concat op_jmp op_eq op_lt op_le : Opcode
  op_test op_testset op_call op_tailcall op_return op_forloop op_forprep : Opcode
  op_tforloop op_setlist op_close op_closure op_vararg : Opcode
  unknown : ℕ → Opcode

pub record OpcodeInfo : Type 0 where
  pub name : String
  pub mode : OpMode
  pub b_mode : ArgMode
  pub c_mode : ArgMode
  pub sets_a : Bool
  pub is_test : Bool

-- The order of the `iota` block.
abbrev pub opcode_order : List Opcode
opcode_order =
    op_move ∷ op_loadk ∷ op_loadbool ∷ op_loadnil ∷ op_getupval ∷ op_getglobal ∷ op_gettable
    ∷ op_setglobal ∷ op_setupval ∷ op_settable ∷ op_newtable ∷ op_self ∷ op_add ∷ op_sub ∷ op_mul
    ∷ op_div ∷ op_mod ∷ op_pow ∷ op_unm ∷ op_not ∷ op_len ∷ op_concat ∷ op_jmp ∷ op_eq ∷ op_lt
    ∷ op_le ∷ op_test ∷ op_testset ∷ op_call ∷ op_tailcall ∷ op_return ∷ op_forloop ∷ op_forprep
    ∷ op_tforloop ∷ op_setlist ∷ op_close ∷ op_closure ∷ op_vararg ∷ []

abbrev pub num_opcodes : ℕ
num_opcodes = 38

-- `Opcode(n)`
unfoldable pub opcode : ℕ → Opcode
opcode n = get_or opcode_order n (unknown (n - num_opcodes))

-- The byte of an opcode.
unfoldable pub code : Opcode → ℕ
code op_move = 0
code op_loadk = 1
code op_loadbool = 2
code op_loadnil = 3
code op_getupval = 4
code op_getglobal = 5
code op_gettable = 6
code op_setglobal = 7
code op_setupval = 8
code op_settable = 9
code op_newtable = 10
code op_self = 11
code op_add = 12
code op_sub = 13
code op_mul = 14
code op_div = 15
code op_mod = 16
code op_pow = 17
code op_unm = 18
code op_not = 19
code op_len = 20
code op_concat = 21
code op_jmp = 22
code op_eq = 23
code op_lt = 24
code op_le = 25
code op_test = 26
code op_testset = 27
code op_call = 28
code op_tailcall = 29
code op_return = 30
code op_forloop = 31
code op_forprep = 32
code op_tforloop = 33
code op_setlist = 34
code op_close = 35
code op_closure = 36
code op_vararg = 37
code (unknown n) = num_opcodes + n

-- `op.Valid()`; the byte is never negative.
unfoldable pub valid : Opcode → Bool
unfolding code
valid op = ltb (code op) num_opcodes

abbrev row : String → OpMode → ArgMode → ArgMode → Bool → Bool → OpcodeInfo
row name mode b_mode c_mode sets_a is_test = record {
  name = name;
  mode = mode;
  b_mode = b_mode;
  c_mode = c_mode;
  sets_a = sets_a;
  is_test = is_test;
}

-- `op.Info()`: the row of `opcodeTable`, or a row of zero values for a byte with none. The name
-- that the source prints for such a byte is not rendered.
unfoldable pub info : Opcode → OpcodeInfo
info op_move = row "MOVE" mode_abc arg_r arg_n true false
info op_loadk = row "LOADK" mode_abx arg_k arg_n true false
info op_loadbool = row "LOADBOOL" mode_abc arg_u arg_u true false
info op_loadnil = row "LOADNIL" mode_abc arg_r arg_n true false
info op_getupval = row "GETUPVAL" mode_abc arg_u arg_n true false
info op_getglobal = row "GETGLOBAL" mode_abx arg_k arg_n true false
info op_gettable = row "GETTABLE" mode_abc arg_r arg_k true false
info op_setglobal = row "SETGLOBAL" mode_abx arg_k arg_n false false
info op_setupval = row "SETUPVAL" mode_abc arg_u arg_n false false
info op_settable = row "SETTABLE" mode_abc arg_k arg_k false false
info op_newtable = row "NEWTABLE" mode_abc arg_u arg_u true false
info op_self = row "SELF" mode_abc arg_r arg_k true false
info op_add = row "ADD" mode_abc arg_k arg_k true false
info op_sub = row "SUB" mode_abc arg_k arg_k true false
info op_mul = row "MUL" mode_abc arg_k arg_k true false
info op_div = row "DIV" mode_abc arg_k arg_k true false
info op_mod = row "MOD" mode_abc arg_k arg_k true false
info op_pow = row "POW" mode_abc arg_k arg_k true false
info op_unm = row "UNM" mode_abc arg_r arg_n true false
info op_not = row "NOT" mode_abc arg_r arg_n true false
info op_len = row "LEN" mode_abc arg_r arg_n true false
info op_concat = row "CONCAT" mode_abc arg_r arg_r true false
info op_jmp = row "JMP" mode_asbx arg_r arg_n false false
info op_eq = row "EQ" mode_abc arg_k arg_k false true
info op_lt = row "LT" mode_abc arg_k arg_k false true
info op_le = row "LE" mode_abc arg_k arg_k false true
info op_test = row "TEST" mode_abc arg_r arg_u true true
info op_testset = row "TESTSET" mode_abc arg_r arg_u true true
info op_call = row "CALL" mode_abc arg_u arg_u true false
info op_tailcall = row "TAILCALL" mode_abc arg_u arg_u true false
info op_return = row "RETURN" mode_abc arg_u arg_n false false
info op_forloop = row "FORLOOP" mode_asbx arg_r arg_n true false
info op_forprep = row "FORPREP" mode_asbx arg_r arg_n true false
info op_tforloop = row "TFORLOOP" mode_abc arg_n arg_u false true
info op_setlist = row "SETLIST" mode_abc arg_u arg_u false false
info op_close = row "CLOSE" mode_abc arg_n arg_n false false
info op_closure = row "CLOSURE" mode_abx arg_u arg_n true false
info op_vararg = row "VARARG" mode_abc arg_u arg_n true false
info (unknown n) = row "Opcode" mode_abc arg_n arg_n false false
