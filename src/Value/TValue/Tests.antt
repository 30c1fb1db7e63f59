-- ===== src/Value/TValue/Tests.antt =====
-- Runs and instances of the laws of value words.
use vex_lua.Base.{ℕ, ◌≡◌, ◌≤◌, refl, ok, err, true, false, some, arith, if◌then◌else◌}
use vex_lua.Base.Float.{is_nan}
use vex_lua.Value.TValue.{
  boxed_value, tag, must_heap_ref_value, number_value, is_number, is_boxed, float64, tag_table_ref,
  tag_invalid, tag_reserved3, payload_mask, canonical_nan, zero_ref,
}
use vex_lua.Value.TValue.Boxing.{Boxes, boxed_value-Boxes, number_value-float64}

abbrev table_five : ℕ
table_five = 0xffff400000000005

boxed_table : must_heap_ref_value tag_table_ref 5 ≡ ok table_five
unfolding must_heap_ref_value
boxed_table = refl

zero_table : must_heap_ref_value tag_table_ref 0 ≡ err zero_ref
unfolding must_heap_ref_value
zero_table = refl

five_boxed : boxed_value 4 5 ≡ ok table_five
unfolding boxed_value
five_boxed = refl

boxed_value-Boxes_example :
    ((word : ℕ)
      → boxed_value 4 5 ≡ ok word
      → (4 ≤ tag_reserved3) × (5 ≤ payload_mask) × Boxes word 4 5)
    × (4 ≤ tag_reserved3 → 5 ≤ payload_mask → (word : ℕ) × (boxed_value 4 5 ≡ ok word))
boxed_value-Boxes_example = boxed_value-Boxes 4 5

-- A NaN with the bits of a boxed value becomes the canonical one.
number_value-float64_example :
    (is_number (number_value table_five) ≡ true)
    × (is_boxed (number_value table_five) ≡ false)
    × (tag (number_value table_five) ≡ tag_invalid)
    × (float64 (number_value table_five)
        ≡ some (if is_nan table_five then canonical_nan else table_five))
number_value-float64_example = number_value-float64 table_five (omega arith)
