-- ===== src/Bytecode/Instruction/Tests.antt =====
-- Runs and instances of the laws of instruction words.
use vex_lua.Base.{ℕ, ◌≡◌, ◌<◌, refl, ok, err, arith, ◌^◌}
use vex_lua.Base.Int.{pos, negsuc, ◌+ℤ◌}
use vex_lua.Bytecode.Opcode.{op_add, op_jmp, op_move, valid}
use vex_lua.Bytecode.Instruction.{
  create_abc, create_asbx, set_opcode, set_a, set_b, set_c, opcode_of, a_of, b_of, c_of, bx_of,
  sbx_of, out_of_range, operand_a,
}
use vex_lua.Bytecode.Instruction.RoundTrip.{Holds, create_abc-Holds, create_asbx-fields}
use vex_lua.Bytecode.Instruction.Replace.{set-Holds}

-- `ADD R1 := R2 + K0`
abbrev add_word : ℕ
add_word = 20971596

create_abc_add : create_abc op_add (pos 1) (pos 2) (pos 256) ≡ ok add_word
unfolding create_abc valid
create_abc_add = refl

create_abc_negative :
    create_abc op_add (negsuc 0) (pos 2) (pos 256) ≡ err (out_of_range operand_a (negsuc 0) 255)
unfolding create_abc valid
create_abc_negative = refl

sbx_backwards : sbx_of 2147450902 ≡ negsuc 0
unfolding sbx_of bx_of
sbx_backwards = refl

create_abc-Holds_example :
    (word : ℕ) × (create_abc op_add (pos 1) (pos 2) (pos 256) ≡ ok word) × Holds word op_add 1 2 256
unfolding valid
create_abc-Holds_example =
    create_abc-Holds op_add 1 2 256 refl (omega arith) (omega arith) (omega arith)

jump_back :
    (word : ℕ) × (create_asbx op_jmp (pos 0) (negsuc 4) ≡ ok word)
    × (word < 2 ^ 32)
    × (opcode_of word ≡ op_jmp)
    × (a_of word ≡ 0)
    × (sbx_of word ≡ negsuc 4)
unfolding valid ◌+ℤ◌
jump_back = create_asbx-fields op_jmp 0 (negsuc 4) refl (omega arith) (omega arith)

set-Holds_example :
    ((w : ℕ) × (set_opcode add_word op_move ≡ ok w)
      × Holds w op_move (a_of add_word) (b_of add_word) (c_of add_word))
    × ((w : ℕ) × (set_a add_word (pos 7) ≡ ok w)
        × Holds w (opcode_of add_word) 7 (b_of add_word) (c_of add_word))
    × ((w : ℕ) × (set_b add_word (pos 8) ≡ ok w)
        × Holds w (opcode_of add_word) (a_of add_word) 8 (c_of add_word))
    × ((w : ℕ) × (set_c add_word (pos 9) ≡ ok w)
        × Holds w (opcode_of add_word) (a_of add_word) (b_of add_word) 9)
unfolding valid
set-Holds_example =
    set-Holds add_word op_move 7 8 9 (omega arith) refl (omega arith) (omega arith) (omega arith)
