-- ===== src/Base/Slots.antt =====
-- A run of writes at fixed offsets, each above the one before it, and reading them back.
use Prim.Native.Nat.{ℕ, zero, suc, ◌+◌, ◌^◌, ◌<◌, ◌≤◌}
use mathlib.Core.Path.{◌≡◌, refl, ◌∙◌}
use mathlib.Core.Logic.{◌⊎◌, inl}
use mathlib.Core.Option.{some}
use mathlib.Core.List.{List, [], ◌∷◌}
use native.Mathlib.Omega.{arith}
use vex_lua.Base.Lists.{length, get_elem?, get_or, All}
use vex_lua.Base.Bytes.{
  read_le, write_le, length-write_le, get_or-write_le, read_le-write_le, read_le-write_le_ne,
}

-- `binary.LittleEndian.PutUintN(buffer[at : at+width], val)`
pub record Slot : Type 0 where
  pub at : ℕ
  pub width : ℕ
  pub val : ℕ

abbrev pub put : ℕ → ℕ → ℕ → Slot
put at width val = record { at = at; width = width; val = val }

unfoldable pub write_slots : List ℕ → List Slot → List ℕ
unfolding write_le
write_slots buf [] = buf
write_slots buf (s ∷ ss) = write_slots (write_le s.width buf s.at s.val) ss

-- The slots stand one above the other from `lo` on, inside `size` bytes, and the values fit.
abbrev pub Fits : ℕ → ℕ → List Slot → Type 0
Fits lo size [] = Unit {0}
Fits lo size (s ∷ ss) =
    (lo ≤ s.at) × (s.at + s.width ≤ size) × (s.val < 256 ^ s.width) × Fits (s.at + s.width) size ss

pub length-write_slots : (buf : List ℕ) (ss : List Slot) → length (write_slots buf ss) ≡ length buf
unfolding write_slots
length-write_slots buf [] = refl
length-write_slots buf (s ∷ ss) =
    length-write_slots (write_le s.width buf s.at s.val) ss ∙ length-write_le s.width buf s.at s.val

pub read_below :
    (m at lo size : ℕ) (buf : List ℕ) (ss : List Slot)
    → Fits lo size ss
    → at + m ≤ lo
    → read_le m (write_slots buf ss) at ≡ read_le m buf at
unfolding write_slots
read_below m at lo size buf [] f h = refl
read_below m at lo size buf (s ∷ ss) f h =
    read_below m at (s.at + s.width) size (write_le s.width buf s.at s.val) ss f.3 (omega arith)
    ∙ read_le-write_le_ne m s.width buf at s.at s.val (inl (omega arith))

-- Each slot holds its value after all the writes.
pub read_slot :
    (lo : ℕ) (buf : List ℕ) (ss : List Slot) (i : ℕ) (s : Slot)
    → Fits lo (length buf) ss
    → get_elem? ss i ≡ some s
    → read_le s.width (write_slots buf ss) s.at ≡ s.val
unfolding write_slots
read_slot lo buf [] i s f e = cc
read_slot lo buf (t ∷ ss) zero s f e =
    let same : t ≡ s = cc in
    rw (← same) (
      read_below t.width t.at (t.at + t.width) (length buf) (write_le t.width buf t.at t.val) ss f.3
        (omega arith)
      ∙ read_le-write_le t.width buf t.at t.val f.1 f.2)
read_slot lo buf (t ∷ ss) (suc i) s f e =
    read_slot (t.at + t.width) (write_le t.width buf t.at t.val) ss i s
      (rw (length-write_le t.width buf t.at t.val) f.3) e

-- A byte outside every slot is left alone.
pub get_or-write_slots :
    (buf : List ℕ) (ss : List Slot) (j : ℕ)
    → All (λ s. (j < s.at) ⊎ (s.at + s.width ≤ j)) ss
    → get_or (write_slots buf ss) j 0 ≡ get_or buf j 0
unfolding write_slots
get_or-write_slots buf [] j h = refl
get_or-write_slots buf (s ∷ ss) j h =
    get_or-write_slots (write_le s.width buf s.at s.val) ss j h.1
    ∙ get_or-write_le s.width buf s.at s.val j h.0
