-- ===== src/Value/TValue/Boxing.antt =====
-- Boxing and unboxing.
use vex_lua.Base.{
  ℕ, ◌+◌, ◌*◌, ◌/◌, ◌^◌, ◌≤◌, ◌<◌, ◌≡◌, true, false, some, if◌then◌else◌, ok, arith, subst,
}
use vex_lua.Base.Bits.{bit_or_above, bit_and_mask}
use vex_lua.Base.Float.{is_nan}
use vex_lua.Value.TValue.{
  boxed_marker, canonical_nan, tag_shift, payload_mask, tag_invalid, tag_reserved3, number_value,
  is_number, is_boxed, tag, payload, float64, boxed_value,
}

-- The word of a tag and a payload in range.
abbrev pub word_of : ℕ → ℕ → ℕ
word_of t p = boxed_marker + t * 2 ^ tag_shift + p

pub boxed_value_lem :
    (t p : ℕ) → t ≤ tag_reserved3 → p ≤ payload_mask → boxed_value t p ≡ ok (word_of t p)
unfolding boxed_value
boxed_value_lem t p ht hp =
    ground (arith, bit_or_above 48 0xffff (t * 2 ^ tag_shift), bit_or_above 44 (0xffff0 + t) p)

-- What a boxed word shows of itself.
pub record Boxes (word t p : ℕ) : Type 0 where
  pub is_word : word < 2 ^ 64
  pub no_number : is_number word ≡ false
  pub boxed : is_boxed word ≡ true
  pub tag_back : tag word ≡ t
  pub payload_back : payload word ≡ p

word_of-Boxes : (t p : ℕ) → t ≤ tag_reserved3 → p ≤ payload_mask → Boxes (word_of t p) t p
unfolding is_number tag payload
word_of-Boxes t p ht hp = record {
  is_word = omega arith;
  no_number = ground arith;
  boxed = ground arith;
  tag_back = ground (arith, bit_and_mask 4 (word_of t p / 2 ^ 44));
  payload_back = ground (arith, bit_and_mask 44 (word_of t p));
}

-- `BoxedValue` returns a word exactly when the tag and the payload are in range; the word has
-- 64 bits, is no number, and gives both back.
pub boxed_value-Boxes :
    (t p : ℕ)
    → ((word : ℕ)
        → boxed_value t p ≡ ok word
        → (t ≤ tag_reserved3) × (p ≤ payload_mask) × Boxes word t p)
      × (t ≤ tag_reserved3 → p ≤ payload_mask → (word : ℕ) × (boxed_value t p ≡ ok word))
boxed_value-Boxes t p = (
  λ word h.
      let (ht, hp) = bounds word h in
      (ht, hp, subst (λ w. Boxes w t p) (result word h ht hp) (word_of-Boxes t p ht hp)),
  λ ht hp. (word_of t p, boxed_value_lem t p ht hp),
)
  where
    bounds : (word : ℕ) → boxed_value t p ≡ ok word → (t ≤ tag_reserved3) × (p ≤ payload_mask)
    bounds word h = unfold boxed_value in ground arith

    result :
        (word : ℕ)
        → boxed_value t p ≡ ok word
        → t ≤ tag_reserved3
        → p ≤ payload_mask
        → word_of t p ≡ word
    result word h ht hp = cc (boxed_value_lem t p ht hp)

-- A float64 is stored as a number, never as a boxed value, and is read back as itself, or as the
-- canonical NaN if it is any NaN.
pub number_value-float64 :
    (number : ℕ)
    → number < 2 ^ 64
    → (is_number (number_value number) ≡ true)
      × (is_boxed (number_value number) ≡ false)
      × (tag (number_value number) ≡ tag_invalid)
      × (float64 (number_value number) ≡ some (if is_nan number then canonical_nan else number))
unfolding number_value is_number tag float64
number_value-float64 number h = ground arith

-- A boxed word is determined by its tag and its payload.
pub boxed_ext :
    (v w : ℕ)
    → v < 2 ^ 64
    → w < 2 ^ 64
    → is_boxed v ≡ true
    → is_boxed w ≡ true
    → tag v ≡ tag w
    → payload v ≡ payload w
    → v ≡ w
unfolding is_boxed tag payload
boxed_ext v w hv hw bv bw t p = ground (
  arith,
  bit_and_mask 4 (v / 2 ^ 44),
  bit_and_mask 44 v,
  bit_and_mask 4 (w / 2 ^ 44),
  bit_and_mask 44 w,
)
