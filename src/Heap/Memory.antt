-- ===== src/Heap/Memory.antt =====
-- Memory as bytes at offsets: slices are read out, written back and cleared.
use vex_lua.Base.{
  ℕ, zero, suc, ◌+◌, ◌-◌, ◌≤◌, ◌<◌, ◌≡◌, refl, ap, ap₂, ◌&&◌, List, [], ◌∷◌, length, get_or, leb,
  ltb, if◌then◌else◌, arith, ◌⊎◌,
}

-- The `size` bytes from an offset on.
unfoldable pub load : (ℕ → ℕ) → ℕ → ℕ → List ℕ
load memory offset zero = []
load memory offset (suc size) = memory offset ∷ load memory (offset + 1) size

-- The memory once a slice at the offset holds these bytes.
unfoldable pub store : (ℕ → ℕ) → ℕ → List ℕ → ℕ → ℕ
store memory offset bytes j =
    if leb offset j && ltb j (offset + length bytes) then get_or bytes (j - offset) 0 else memory j

-- `clear(bytes)`
unfoldable pub clear : (ℕ → ℕ) → ℕ → ℕ → ℕ → ℕ
clear memory offset size j = if leb offset j && ltb j (offset + size) then 0 else memory j

pub length-load : (memory : ℕ → ℕ) (offset size : ℕ) → length (load memory offset size) ≡ size
unfolding load
length-load memory offset zero = refl
length-load memory offset (suc size) = ap suc (length-load memory (offset + 1) size)

pub load_congr :
    (a b : ℕ → ℕ) (offset size : ℕ)
    → ((j : ℕ) → offset ≤ j → j < offset + size → a j ≡ b j)
    → load a offset size ≡ load b offset size
unfolding load
load_congr a b offset zero same = refl
load_congr a b offset (suc size) same =
    ap₂ (λ x xs. x ∷ xs) (same offset (omega arith) (omega arith))
      (load_congr a b (offset + 1) size λ j p q. same j (omega arith) (omega arith))

pub get_or-load :
    (memory : ℕ → ℕ) (offset size i : ℕ)
    → i < size
    → get_or (load memory offset size) i 0 ≡ memory (offset + i)
unfolding load
get_or-load memory offset zero i below = absurd (omega arith)
get_or-load memory offset (suc size) zero below = ap memory (omega arith)
get_or-load memory offset (suc size) (suc i) below =
    omega (arith, get_or-load memory (offset + 1) size i (omega arith), ap memory (place offset i))
  where
    place : (a b : ℕ) → a + 1 + b ≡ a + suc b
    place a b = omega arith

load_bytes :
    (memory : ℕ → ℕ) (offset : ℕ) (bytes : List ℕ)
    → ((i : ℕ) → i < length bytes → memory (offset + i) ≡ get_or bytes i 0)
    → load memory offset (length bytes) ≡ bytes
unfolding load
load_bytes memory offset [] at = refl
load_bytes memory offset (b ∷ bytes) at =
    ap₂ (λ x xs. x ∷ xs) (omega (arith, at 0 (omega arith), ap memory (start offset)))
      (load_bytes memory (offset + 1) bytes
        λ i below. omega (arith, at (suc i) (omega arith), ap memory (next offset i)))
  where
    start : (a : ℕ) → a + 0 ≡ a
    start a = omega arith

    next : (a b : ℕ) → a + 1 + b ≡ a + suc b
    next a b = omega arith

pub store_at :
    (memory : ℕ → ℕ) (offset : ℕ) (bytes : List ℕ) (i : ℕ)
    → i < length bytes
    → store memory offset bytes (offset + i) ≡ get_or bytes i 0
unfolding store
store_at memory offset bytes i below = ground (arith, ap (λ k. get_or bytes k 0) (back offset i))
  where
    back : (a b : ℕ) → a + b - a ≡ b
    back a b = omega arith

pub load-store :
    (memory : ℕ → ℕ) (offset : ℕ) (bytes : List ℕ)
    → load (store memory offset bytes) offset (length bytes) ≡ bytes
load-store memory offset bytes =
    load_bytes (store memory offset bytes) offset bytes (store_at memory offset bytes)

pub store_else :
    (memory : ℕ → ℕ) (offset : ℕ) (bytes : List ℕ) (j : ℕ)
    → (j < offset) ⊎ (offset + length bytes ≤ j)
    → store memory offset bytes j ≡ memory j
unfolding store
store_else memory offset bytes j out = ground arith

pub clear_else :
    (memory : ℕ → ℕ) (offset size j : ℕ)
    → (j < offset) ⊎ (offset + size ≤ j)
    → clear memory offset size j ≡ memory j
unfolding clear
clear_else memory offset size j out = ground arith

pub clear_zero :
    (memory : ℕ → ℕ) (offset size j : ℕ)
    → (offset ≤ j) × (j < offset + size)
    → clear memory offset size j ≡ 0
unfolding clear
clear_zero memory offset size j inside = ground arith
