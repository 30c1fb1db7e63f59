-- ===== src/Bytecode/Validate/Whole.antt =====
-- internal/bytecode/validate.go: `validateProto` over the code, the local variables and the child
-- prototypes.
use vex_lua.Base.{ℕ, suc, ◌≤◌, ◌≡◌, refl, true, List, [], ◌∷◌, some, length, All, arith}
use vex_lua.Base.Int.{ℤ, pos, negsuc, leb_ℤ}
use vex_lua.Bytecode.Opcode.{Opcode}
use vex_lua.Bytecode.Proto.{Body, Proto, Protos, proto, child, num_protos, LocVar, body}
use vex_lua.Bytecode.Validate.{
  pass, validate_from, validate_locals, validate_body, validate, validate_all, validate_proto,
}

-- A local variable's range lies in the code.
abbrev pub IsScoped : ℕ → LocVar → Type 0
IsScoped size v =
    (s : ℕ) × (e : ℕ) × (v.start_pc ≡ pos s) × (v.end_pc ≡ pos e) × (s ≤ e) × (e ≤ size)

range_lem :
    (a b : ℤ) (size : ℕ)
    → leb_ℤ (pos 0) a ≡ true
    → leb_ℤ (pos 0) b ≡ true
    → leb_ℤ a b ≡ true
    → leb_ℤ b (pos size) ≡ true
    → (s : ℕ) × (e : ℕ) × (a ≡ pos s) × (b ≡ pos e) × (s ≤ e) × (e ≤ size)
range_lem (pos s) (pos e) size h k l m = (s, e, refl, refl, ground arith, ground arith)
range_lem (pos s) (negsuc e) size h k l m = absurd (ground arith)
range_lem (negsuc s) b size h k l m = absurd (ground arith)

validate_locals-IsScoped :
    (size index : ℕ) (vs : List LocVar)
    → validate_locals size index vs ≡ pass
    → All (IsScoped size) vs
unfolding validate_locals
validate_locals-IsScoped size index [] h = tt
validate_locals-IsScoped size index (v ∷ vs) h = (
  range_lem v.start_pc v.end_pc size (ground arith) (ground arith) (ground arith) (ground arith),
  validate_locals-IsScoped size (suc index) vs (ground arith),
)

-- The prototypes that a prototype holds, itself among them.
mutual
  pub data Within (p : Proto) : Proto → Type 0 where
    here : Within p p
    inside : {b : Body} {ps : Protos} → Among p ps → Within p (proto b ps)

  pub data Among (p : Proto) : Protos → Type 0 where
    first : {q : Proto} {rest : Protos} → Within p q → Among p (child q rest)
    later : {q : Proto} {rest : Protos} → Among p rest → Among p (child q rest)

validate_parts :
    (b : Body) (ps : Protos)
    → validate (proto b ps) ≡ pass
    → (validate_body b (num_protos ps) ≡ pass) × (validate_all ps ≡ pass)
unfolding validate
validate_parts b ps h = ground arith

validate_all_parts :
    (q : Proto) (rest : Protos)
    → validate_all (child q rest) ≡ pass
    → (validate q ≡ pass) × (validate_all rest ≡ pass)
unfolding validate
validate_all_parts q rest h = ground arith

mutual
  validate-Within : {p top : Proto} → Within p top → validate top ≡ pass → validate p ≡ pass
  validate-Within here h = h
  validate-Within (inside {b} {ps} w) h = validate-Among w (validate_parts b ps h).1

  validate-Among :
      {p : Proto} {ps : Protos} → Among p ps → validate_all ps ≡ pass → validate p ≡ pass
  validate-Among (first {q} {rest} w) h = validate-Within w (validate_all_parts q rest h).0
  validate-Among (later {q} {rest} w) h = validate-Among w (validate_all_parts q rest h).1

validate_body_parts :
    (b : Body) (children : ℕ)
    → validate_body b children ≡ pass
    → (validate_locals (length b.instructions) 0 b.loc_vars ≡ pass)
      × (validate_from b children 0 b.instructions ≡ pass)
unfolding validate_body
validate_body_parts b children h = ground arith

-- If `ValidateProto` accepts a prototype, then in it and in every prototype inside it each local
-- variable's range starts at or after 0, does not end before it starts, and ends in the code.
pub validate_proto-IsScoped :
    {p top : Proto}
    → Within p top
    → validate_proto (some top) ≡ pass
    → All (IsScoped (length (body p).instructions)) (body p).loc_vars
unfolding validate_proto
validate_proto-IsScoped {p = proto b ps} w h =
    validate_locals-IsScoped _ 0 b.loc_vars
      (validate_body_parts b (num_protos ps) (validate_parts b ps (validate-Within w h)).0).0
