-- ===== src/State.antt =====
-- internal/runtime/state: a thread's stack of values and its call frames.
-- The arenas of the stack and of the frames are lists behind their first addresses; `frames` holds
-- every header of the arena, in use or not. Addresses are below 2 ^ 64, and sums of them wrap there.
mod Tests
pub mod Frame
pub mod Thread
pub mod Window
pub mod Stack
pub mod Steps
pub mod Roots
