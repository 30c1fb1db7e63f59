-- ===== src/Table/OnHeap/Tests.antt =====
-- The heap under the table store, on a platform and with strings of its own.
use vex_lua.Base.{true, [], ◌∷◌, some, ok}
use vex_lua.Heap.{Platform}
use vex_lua.Table.OnHeap.{Strings}

abbrev platform : Platform
platform = record {
  os_page_size = some 4096;
  reserve = λ size. some 0x7f0000000000;
  commits = λ size. true;
  order = λ spans. 16 ∷ [];
}

abbrev strings : Strings
strings = record { hash_of = λ ref. ok ref; text_of = λ ref. ok []; convert = λ x. 0 }
