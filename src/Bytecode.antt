-- ===== src/Bytecode.antt =====
-- internal/bytecode: opcodes, instruction words, prototypes, their validation and iteration.
pub mod Opcode
pub mod Instruction
pub mod Proto
pub mod Validate
pub mod Iterator
