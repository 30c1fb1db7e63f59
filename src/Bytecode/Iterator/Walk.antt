-- ===== src/Bytecode/Iterator/Walk.antt =====
-- Reading code through an iterator.
use vex_lua.Base.{
  ℕ, zero, suc, ◌≤◌, ◌<◌, ◌≡◌, refl, List, [], ◌∷◌, ◌++◌, length, get_or, ok, if◌then◌else◌, arith,
  length-append,
}
use vex_lua.Base.Int.{ℤ, pos, negsuc}
use vex_lua.Bytecode.Iterator.{
  Iterator, new_iterator, reset, is_done, current, advance, set_offset, advance_to, InBounds,
}
use mathlib.Core.List.{append_assoc}

-- The words that `for ; !it.Done(); it.Advance() { it.Current() }` reads, on fuel.
unfoldable pub walk : ℕ → Iterator → List ℕ
walk zero it = []
walk (suc fuel) it =
    let rest = walk fuel (advance it) in if is_done it then [] else current it ∷ rest

get_or_middle : (pre rest : List ℕ) (x d : ℕ) → get_or (pre ++ (x ∷ rest)) (length pre) d ≡ x
get_or_middle [] rest x d = refl
get_or_middle (p ∷ pre) rest x d = get_or_middle pre rest x d

walk_from :
    (fuel : ℕ) (pre rest : List ℕ)
    → length rest < fuel
    → walk fuel (record { words = pre ++ rest; offset = length pre }) ≡ rest
unfolding walk advance current is_done
walk_from zero pre rest h = absurd (omega arith)
walk_from (suc fuel) pre [] h = ground (arith, length-append pre [])
walk_from (suc fuel) pre (x ∷ rest) h = ground (
  arith,
  length-append pre (x ∷ rest),
  length-append pre (x ∷ []),
  get_or_middle pre rest x 0,
  append_assoc pre (x ∷ []) rest,
  walk_from fuel (pre ++ (x ∷ [])) rest,
)

-- A fresh iterator over code of any length visits each word once, in order, and is then done;
-- one more round than there are words is enough.
pub walk-new_iterator : (code : List ℕ) → walk (suc (length code)) (new_iterator code) ≡ code
unfolding new_iterator
walk-new_iterator code = walk_from (suc (length code)) [] code (omega arith)

-- Every move keeps the code and leaves the offset at most one past its last word; `AdvanceTo`
-- never goes back.
pub moves-InBounds :
    (it : Iterator) (target : ℤ)
    → InBounds it
    → ((reset it).words ≡ it.words)
      × InBounds (reset it)
      × ((advance it).words ≡ it.words)
      × InBounds (advance it)
      × ((next : Iterator)
          → set_offset it target ≡ ok next
          → (next.words ≡ it.words) × InBounds next × (target ≡ pos next.offset))
      × ((next : Iterator)
          → advance_to it target ≡ ok next
          → (next.words ≡ it.words)
            × InBounds next
            × (target ≡ pos next.offset)
            × (it.offset ≤ next.offset))
unfolding reset advance is_done set_offset advance_to
moves-InBounds it (pos n) h = (
  refl,
  ground arith,
  ground arith,
  ground arith,
  (λ next e. (ground arith, ground arith, ground arith)),
  (λ next e. (ground arith, ground arith, ground arith, ground arith)),
)
moves-InBounds it (negsuc n) h = (
  refl,
  ground arith,
  ground arith,
  ground arith,
  (λ next e. cc),
  (λ next e. (ground arith, ground arith, ground arith, ground arith)),
)
