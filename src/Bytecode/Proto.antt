-- ===== src/Bytecode/Proto.antt =====
-- internal/bytecode/proto.go: function prototypes and their constants.
use Prim.Native.String.{String}
use vex_lua.Base.{ℕ, suc, Bool, List, length}
use vex_lua.Base.Int.{ℤ}

pub data ConstantKind : Type 0 where
  constant_nil constant_boolean constant_number constant_string : ConstantKind

-- A float64 is its 64 bits.
pub record Constant : Type 0 where
  pub kind : ConstantKind
  pub boolean : Bool
  pub number : ℕ
  pub text : String

pub record LocVar : Type 0 where
  pub name : String
  pub start_pc : ℤ
  pub end_pc : ℤ

-- The fields of a `Proto` but for the children.
pub record Body : Type 0 where
  pub source : String
  pub line_defined : ℤ
  pub last_line_def : ℤ
  pub num_upvalues : ℕ
  pub num_params : ℕ
  pub is_vararg : ℕ
  pub max_stack_size : ℕ
  pub instructions : List ℕ
  pub constants : List Constant
  pub line_info : List ℤ
  pub loc_vars : List LocVar
  pub upvalue_names : List String

-- A prototype with its children, none of them a nil pointer.
mutual
  pub data Proto : Type 0 where
    proto : Body → Protos → Proto

  pub data Protos : Type 0 where
    done : Protos
    child : Proto → Protos → Protos

unfoldable pub num_protos : Protos → ℕ
num_protos done = 0
num_protos (child p rest) = suc (num_protos rest)

abbrev pub body : Proto → Body
body (proto b _) = b

abbrev pub protos : Proto → Protos
protos (proto _ ps) = ps

unfoldable pub instruction_count : Proto → ℕ
instruction_count p = length (body p).instructions

unfoldable pub constant_count : Proto → ℕ
constant_count p = length (body p).constants
