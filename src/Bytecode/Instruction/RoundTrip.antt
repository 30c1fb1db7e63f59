-- ===== src/Bytecode/Instruction/RoundTrip.antt =====
-- Packing fields into a word and reading them back.
use vex_lua.Base.{
  ℕ, ◌+◌, ◌*◌, ◌/◌, ◌%◌, ◌^◌, ◌<◌, ◌≤◌, ◌≡◌, refl, arith, true, ok, ltb→lt, ap, ◌∙◌, sym,
}
use vex_lua.Base.Int.{ℤ, pos, negsuc, ◌+ℤ◌}
use vex_lua.Bytecode.Opcode.{Opcode, code, opcode, valid, num_opcodes}
use vex_lua.Bytecode.Opcode.Codes.{opcode-code, code-opcode}
use vex_lua.Bytecode.Instruction.{
  size_op, size_a, size_b, size_c, size_bx, pos_op, pos_a, pos_b, pos_c, pos_bx, max_arg_a,
  max_arg_b, max_arg_c, max_arg_bx, max_arg_sbx, opcode_of, a_of, b_of, c_of, bx_of, sbx_of,
  create_abc, create_asbx,
}
use vex_lua.Bytecode.Instruction.Fields.{field_lem, pack_abc, pack_abx}

-- The fields of a word as digits.
pub record Holds (word : ℕ) (op : Opcode) (a b c : ℕ) : Type 0 where
  pub is_word : word < 2 ^ 32
  pub opcode_field : opcode_of word ≡ op
  pub a_field : a_of word ≡ a
  pub b_field : b_of word ≡ b
  pub c_field : c_of word ≡ c

pub valid-lt : (op : Opcode) → valid op ≡ true → code op < num_opcodes
unfolding valid
valid-lt op h = ltb→lt (code op) num_opcodes h

pub sum-Holds :
    (word : ℕ) (op : Opcode) (a b c : ℕ)
    → code op < 2 ^ size_op
    → a ≤ max_arg_a
    → b ≤ max_arg_b
    → c ≤ max_arg_c
    → word ≡ code op + a * 2 ^ pos_a + c * 2 ^ pos_c + b * 2 ^ pos_b
    → Holds word op a b c
unfolding opcode_of a_of b_of c_of
sum-Holds word op a b c ho ha hb hc e = record {
  is_word = omega arith;
  opcode_field = ap opcode (rw field_lem (omega arith)) ∙ opcode-code op;
  a_field = rw field_lem (omega arith);
  b_field = rw field_lem (omega arith);
  c_field = rw field_lem (omega arith);
}

pub fields_lem :
    (word : ℕ)
    → (a_of word ≡ word / 2 ^ pos_a % 2 ^ size_a)
      × (b_of word ≡ word / 2 ^ pos_b % 2 ^ size_b)
      × (c_of word ≡ word / 2 ^ pos_c % 2 ^ size_c)
      × (bx_of word ≡ word / 2 ^ pos_bx % 2 ^ size_bx)
unfolding a_of b_of c_of bx_of
fields_lem word = (
  field_lem word pos_a size_a,
  field_lem word pos_b size_b,
  field_lem word pos_c size_c,
  field_lem word pos_bx size_bx,
)

pub code-opcode_of : (word : ℕ) → code (opcode_of word) ≡ word % 2 ^ size_op
unfolding opcode_of
code-opcode_of word = code-opcode _ ∙ rw (field_lem word pos_op size_op) (omega arith)

-- `CreateABC` of a valid opcode and operands in range returns a 32-bit word whose fields are
-- those operands.
pub create_abc-Holds :
    (op : Opcode) (a b c : ℕ)
    → valid op ≡ true
    → a ≤ max_arg_a
    → b ≤ max_arg_b
    → c ≤ max_arg_c
    → (word : ℕ) × (create_abc op (pos a) (pos b) (pos c) ≡ ok word) × Holds word op a b c
unfolding create_abc
create_abc-Holds op a b c v ha hb hc =
    let below = valid-lt op v in
    (
      code op + a * 2 ^ pos_a + c * 2 ^ pos_c + b * 2 ^ pos_b,
      ground (arith, pack_abc (code op) a b c),
      sum-Holds _ op a b c (omega arith) ha hb hc refl,
    )

-- An `int` within 0 and a maximum.
abbrev pub InRange : ℕ → ℤ → Type 0
InRange max (pos n) = n ≤ max
InRange max (negsuc n) = ⊥

-- `CreateABC` panics unless the opcode is valid and every operand is in range.
pub create_abc-ok :
    (op : Opcode) (a b c : ℤ) (word : ℕ)
    → create_abc op a b c ≡ ok word
    → (valid op ≡ true) × InRange max_arg_a a × InRange max_arg_b b × InRange max_arg_c c
unfolding create_abc
create_abc-ok op (pos a) (pos b) (pos c) word h = ground arith
create_abc-ok op a b c word h = ground arith

-- A word is determined by its fields.
Holds-word :
    (word : ℕ) (op : Opcode) (a b c : ℕ)
    → Holds word op a b c
    → word ≡ code op + a * 2 ^ pos_a + c * 2 ^ pos_c + b * 2 ^ pos_b
Holds-word word op a b c h =
    omega (arith, fields_lem word, code-opcode_of word, ap code h.opcode_field)

self-Holds :
    (word : ℕ) → word < 2 ^ 32 → Holds word (opcode_of word) (a_of word) (b_of word) (c_of word)
self-Holds word w = record {
  is_word = w;
  opcode_field = refl;
  a_field = refl;
  b_field = refl;
  c_field = refl;
}

-- A 32-bit word with a valid opcode is what `CreateABC` makes of its own fields.
pub create_abc_self :
    (word : ℕ)
    → word < 2 ^ 32
    → valid (opcode_of word) ≡ true
    → create_abc (opcode_of word) (pos (a_of word)) (pos (b_of word)) (pos (c_of word)) ≡ ok word
create_abc_self word w v =
    let e = fields_lem word in
    let (packed, made, fields) =
      create_abc-Holds (opcode_of word) (a_of word) (b_of word) (c_of word) v (omega arith)
        (omega arith) (omega arith) in
    made
    ∙ ap ok (Holds-word packed _ _ _ _ fields ∙ sym (Holds-word word _ _ _ _ (self-Holds word w)))

sbx_of_lem :
    (word : ℕ) (sbx : ℤ) (bx : ℕ)
    → sbx +ℤ pos max_arg_sbx ≡ pos bx
    → bx_of word ≡ bx
    → sbx_of word ≡ sbx
unfolding sbx_of ◌+ℤ◌
sbx_of_lem word sbx bx e h = ground arith

InRange-pos : (max : ℕ) (z : ℤ) → InRange max z → (n : ℕ) × (z ≡ pos n) × (n ≤ max)
InRange-pos max (pos n) h = (n, refl, h)
InRange-pos max (negsuc n) h = absurd h

create_asbx_lem :
    (op : Opcode) (a : ℕ) (sbx : ℤ) (bx : ℕ)
    → valid op ≡ true
    → a ≤ max_arg_a
    → bx ≤ max_arg_bx
    → sbx +ℤ pos max_arg_sbx ≡ pos bx
    → create_asbx op (pos a) sbx ≡ ok (code op + a * 2 ^ pos_a + bx * 2 ^ pos_bx)
unfolding create_asbx
create_asbx_lem op a sbx bx v ha h e =
    let below = valid-lt op v in rw e (ground (arith, pack_abx (code op) a bx))

sum-opcode :
    (op : Opcode) (rest word : ℕ)
    → code op < num_opcodes
    → word ≡ code op + rest * 2 ^ size_op
    → opcode_of word ≡ op
unfolding opcode_of
sum-opcode op rest word h e = ap opcode (rw field_lem (omega arith)) ∙ opcode-code op

-- `CreateAsBx` of a valid opcode, a register and a jump within ±131071 returns a word that holds
-- them; the jump comes back with its sign.
pub create_asbx-fields :
    (op : Opcode) (a : ℕ) (sbx : ℤ)
    → valid op ≡ true
    → a ≤ max_arg_a
    → InRange max_arg_bx (sbx +ℤ pos max_arg_sbx)
    → (word : ℕ) × (create_asbx op (pos a) sbx ≡ ok word)
      × (word < 2 ^ 32)
      × (opcode_of word ≡ op)
      × (a_of word ≡ a)
      × (sbx_of word ≡ sbx)
create_asbx-fields op a sbx v ha hs =
    let below = valid-lt op v in
    let (bx, e, h) = InRange-pos max_arg_bx (sbx +ℤ pos max_arg_sbx) hs in
    (
      code op + a * 2 ^ pos_a + bx * 2 ^ pos_bx,
      create_asbx_lem op a sbx bx v ha h e,
      omega arith,
      sum-opcode op (a + bx * 2 ^ 8) _ below (omega arith),
      omega (arith, fields_lem (code op + a * 2 ^ pos_a + bx * 2 ^ pos_bx)),
      sbx_of_lem _ sbx bx e (omega (arith, fields_lem (code op + a * 2 ^ pos_a + bx * 2 ^ pos_bx))),
    )
