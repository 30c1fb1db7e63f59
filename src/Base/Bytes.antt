-- ===== src/Base/Bytes.antt =====
-- Byte buffers as lists of bytes, with `binary.LittleEndian`'s reads and writes. The code checks
-- a buffer's length before it touches it, so that no access here falls outside.
use Prim.Native.Nat.{ℕ, zero, suc, ◌+◌, ◌*◌, ◌/◌, ◌%◌, ◌^◌, ◌<◌, ◌≤◌}
use mathlib.Core.Path.{◌≡◌, refl, ◌∙◌}
use mathlib.Core.Logic.{◌⊎◌, inl}
use mathlib.Core.List.{List}
use native.Mathlib.Omega.{arith}
use native.Mathlib.Nat.{pow-suc}
use vex_lua.Base.Lists.{length, get_or, set, length-set, get_or-set_self, get_or-set_ne}

-- `k` bytes from an offset, least significant first.
unfoldable pub read_le : ℕ → List ℕ → ℕ → ℕ
read_le zero buf off = 0
read_le (suc k) buf off = get_or buf off 0 + 256 * read_le k buf (off + 1)

unfoldable pub write_le : ℕ → List ℕ → ℕ → ℕ → List ℕ
write_le zero buf off v = buf
write_le (suc k) buf off v = write_le k (set buf off (v % 256)) (off + 1) (v / 256)

pub length-write_le :
    (k : ℕ) (buf : List ℕ) (off v : ℕ) → length (write_le k buf off v) ≡ length buf
unfolding write_le
length-write_le zero buf off v = refl
length-write_le (suc k) buf off v =
    length-write_le k (set buf off (v % 256)) (off + 1) (v / 256) ∙ length-set buf off (v % 256)

-- A write leaves the bytes outside its range.
pub get_or-write_le :
    (k : ℕ) (buf : List ℕ) (off v j : ℕ)
    → (j < off) ⊎ (off + k ≤ j)
    → get_or (write_le k buf off v) j 0 ≡ get_or buf j 0
unfolding write_le
get_or-write_le zero buf off v j h = refl
get_or-write_le (suc k) buf off v j h =
    get_or-write_le k (set buf off (v % 256)) (off + 1) (v / 256) j (ground arith)
    ∙ get_or-set_ne buf off j (v % 256) 0 (ground arith)

-- Reads depend on the bytes read only.
pub read_le_congr :
    (k : ℕ) (a b : List ℕ) (off : ℕ)
    → ((j : ℕ) → off ≤ j → j < off + k → get_or a j 0 ≡ get_or b j 0)
    → read_le k a off ≡ read_le k b off
unfolding read_le
read_le_congr zero a b off h = refl
read_le_congr (suc k) a b off h = omega (
  arith,
  h off (omega arith) (omega arith),
  read_le_congr k a b (off + 1) (λ j p q. h j (omega arith) (omega arith)),
)

pub read_le-write_le_ne :
    (m k : ℕ) (buf : List ℕ) (at off v : ℕ)
    → (at + m ≤ off) ⊎ (off + k ≤ at)
    → read_le m (write_le k buf off v) at ≡ read_le m buf at
read_le-write_le_ne m k buf at off v h =
    read_le_congr m (write_le k buf off v) buf at
      λ j p q. get_or-write_le k buf off v j (ground arith)

-- Reading back what was written, cut to the width.
pub read_le-write_le :
    (k : ℕ) (buf : List ℕ) (off v : ℕ)
    → off + k ≤ length buf
    → v < 256 ^ k
    → read_le k (write_le k buf off v) off ≡ v
unfolding read_le write_le
read_le-write_le zero buf off v h w = omega arith
read_le-write_le (suc k) buf off v h w =
    let first = set buf off (v % 256) in
    let p = pow-suc 256 k in
    omega (
      arith,
      get_or-write_le k first (off + 1) (v / 256) off (inl (omega arith)),
      get_or-set_self buf off (v % 256) 0 (omega arith),
      read_le-write_le k first (off + 1) (v / 256) (rw length-set (omega arith)) (omega arith),
    )

-- A read of bytes is below the width's bound.
pub read_le-lt :
    (k : ℕ) (buf : List ℕ) (off : ℕ)
    → ((j : ℕ) → get_or buf j 0 < 256)
    → read_le k buf off < 256 ^ k
unfolding read_le
read_le-lt zero buf off h = omega arith
read_le-lt (suc k) buf off h = omega (arith, pow-suc 256 k, h off, read_le-lt k buf (off + 1) h)
