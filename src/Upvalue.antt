-- ===== src/Upvalue.antt =====
-- internal/runtime/upvalue: variables that closures share, open on a thread's stack or closed.
pub mod Object
pub mod Manager
pub mod Opened
pub mod Find
pub mod Close
pub mod Closing
pub mod Place
pub mod Insert
pub mod Create
pub mod Shared
pub mod Layout
pub mod OnHeap
mod Tests
