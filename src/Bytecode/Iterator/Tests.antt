-- ===== src/Bytecode/Iterator/Tests.antt =====
-- Instances of the iterator's laws.
use vex_lua.Base.{◌≡◌, [], ◌∷◌}
use vex_lua.Bytecode.Iterator.{Iterator, new_iterator}
use vex_lua.Bytecode.Iterator.Walk.{walk, walk-new_iterator}

walk-new_iterator_example : walk 4 (new_iterator (5 ∷ 6 ∷ 7 ∷ [])) ≡ 5 ∷ 6 ∷ 7 ∷ []
walk-new_iterator_example = walk-new_iterator (5 ∷ 6 ∷ 7 ∷ [])

abbrev middle : Iterator
middle = record { words = 5 ∷ 6 ∷ 7 ∷ []; offset = 1 }
