-- ===== src/Value.antt =====
-- internal/runtime/value: value words, references into the heap and the common object header.
pub mod TValue
pub mod Address
pub mod Header
