-- ===== src/Lib.antt =====
-- VexLua: the words, instructions, heap, tables, stack and upvalues of a Lua 5.1 runtime in Go.
--
-- The program compiles Lua source to bytecode (internal/frontend), checks the bytecode
-- (internal/bytecode), and runs it by an interpreter (internal/interp) or by machine code
-- (internal/vexarc) over a heap of its own (internal/runtime). A value is a 64-bit word, a heap
-- object is bytes behind a 16-byte header, and a table is such an object with three regions beside
-- it: an array, control bytes and hash entries. The validator checks
-- the operands of bytecode before it is run; tables are what the other parts all share.
--
-- The modules and the code they model:
--
--   Base        helpers: tests on the native numbers, lists, `Result` (a Go function's value or its
--               error), bits, bytes in little-endian order, float64 as its 64 bits, integers, and
--               records of fields at fixed offsets of a buffer (Base/Slots).
--   Bytecode    Opcode (internal/bytecode/opcode.go), Instruction (instruction.go: the fields of a
--               32-bit word, its constructors and setters), Proto (proto.go), Validate (validate.go)
--               and Iterator (iterator.go).
--   Value       TValue (internal/runtime/value/tvalue.go, layout.go), Address (address.go: references
--               of 44 bits and offsets) and Header (header.go: the common header over a buffer).
--   Heap        the records of internal/runtime/heap, with Memory (bytes at offsets), Pages (heap.go:
--               the pages and `New`; native_arena.go), Controller (gc_controller.go: phases, queues,
--               trigger), Access (heap.go: `Resolve`, addresses, references, headers), Span
--               (`allocSpan`), Lifetime (the allocations, `FreeSpan` and the walks of span.go) and
--               Barrier (the write barrier). The other modules prove: Invariant, Kept, Appended and
--               Reused (what holds of every heap), Fresh and Outcome (an allocation), Best and BestFit
--               (the free spans), Freed, Walk, Resolve, Headers, Queues, TriColour, Exhausted, Running
--               and Made.
--   Table       Layout (internal/runtime/table/layout.go), Keys (the number functions of store.go),
--               Find (its `findEntry`), Store (all its other operations) and OnHeap (the interface
--               of the store, filled by the heap; OnHeap/Laws proves). In Store, Grow, Write, Read and Bulk are the
--               code; Invariant, Kept and Ordered prove what holds of every table, Place, Laws and
--               Other what `Get` returns after `Set`, Length, Sound and Regrown the rest, and the
--               other modules are steps of these.
--   State       Frame (internal/runtime/state/frame.go: a call frame's header, without its reserved
--               words), Thread (thread.go: the slots and frames of one thread) and Roots
--               (external_roots.go: the host's references). Steps has `NewThread`, and a relation
--               for one call that changes the thread, in any order. Window, Stack, Steps/Stacked,
--               Steps/Kept, Steps/Frames and Steps/Reached prove.
--   Upvalue     Object (internal/runtime/upvalue/object.go, without the common header) and Manager
--               (manager.go). Opened has the open list and the laws of upvalue objects; Find, Place,
--               Insert, Create, Close, Closing and Shared prove on it. Layout is the object as bytes,
--               and OnHeap puts the objects into the heap (manager.go from `Object` on), where
--               Resolves, Found, Kept, Written, Barred, Made, Fresh and Steps prove what OnHeap/Laws
--               collects.
--
-- Names are Go's, in snake case: `set_key` is `Store.Set`, `get` is `Store.Get`, `table_length` is
-- `Store.tableLength`, `new_table` is `Store.New`, and the rest is spelled as in the source. A helper
-- that is not in the source (`place`, `make_room`, `with_hash`, `halve`, `doubling`) is a block of
-- one of its functions.
--
-- Machine integers are natural numbers, and wrap where the code lets them: a `uint32` sum is taken
-- % 2 ^ 32. A Go panic and a Go error are both `err`. An object's Go methods that change it return
-- the changed record. After an error a table operation has no state, since no caller goes on with
-- one.
--
-- The table store works over an interface to the heap (`HeapOps`): allocation, barriers, release,
-- marks, and the hash and text of a string. `HeapLaws` says that the heap never gives out offset 0.
-- A table stands for its object with the contents of its regions, which no other object shares.
-- Spans have less than 2 ^ 32 bytes, so that a slot's index fits Go's `int32` and byte positions do
-- not wrap.
--
-- The upvalues work over an interface as well (`ObjectOps`: reading, writing and allocating an
-- upvalue object, and the write barrier), with `ObjectLaws` as what it must keep: what is written is
-- read back, and objects do not overlap. OnHeap fills it by the heap, on a platform that commits what
-- it has reserved. They share the stack of the thread with its frames.
--
-- A thread is given the addresses of its two arenas, which Go's allocator chooses; `IsThread` says
-- that they lie inside the 64-bit address space and that the stack has few slots beside 2 ^ 32. A
-- pointer to a frame's header is its index: a change through it changes the arena.
--
-- Loops: a probe has as many rounds as the hash part has slots, as in the code. The binary searches
-- of `Length` have 32 rounds, which halve any interval of 32-bit indices up to 2 ^ 31, above which the
-- sum of its ends wraps; its doubling loop has 32, since the index doubles below 2 ^ 31. The linear search has the code's own bound. The validator
-- and the iterator recurse on the list of words that is left. A walk of a thread's open upvalues has a
-- number of steps, and ends when there are more steps than upvalues.
--
-- The heap keeps its memory as a function from offsets to bytes; a Go slice of it is the list of its
-- bytes. What the operating system does is a parameter (`Platform`): its page size, the address of a
-- reservation, which sizes it commits; how much is committed is not kept. The order in which Go's
-- `range` visits a map is a parameter too. An allocation returns the heap beside its result, since a
-- failed one leaves a page behind. Theorems on sizes ask that words do not wrap, and `Runs` is the
-- invariant that a heap keeps for which this is so: reservation and page size have at most 2 ^ 61
-- bytes together.
--
-- Not modelled: the collector, strings, closures, the machine state
-- with its list of threads and their native headers, feedback, the front end (lexer, parser, compiler, chunk loader), the interpreter, and the baseline
-- compiler with its assembler. Machine code, memory of the operating system and reflection over Go
-- values are outside. Of the modelled files, the functions that print are left out.
mod Base
pub mod Bytecode
pub mod Value
pub mod Heap
pub mod Table
pub mod State
pub mod Upvalue
