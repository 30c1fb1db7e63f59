-- ===== src/Table.antt =====
-- internal/runtime/table: Lua tables with an array part and an open-addressing hash part.
pub mod Layout
pub mod Keys
pub mod Find
pub mod Store
pub mod OnHeap
