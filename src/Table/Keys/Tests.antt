-- ===== src/Table/Keys/Tests.antt =====
-- Sizes of regions.
use vex_lua.Base.{ℕ, ◌*◌, ◌^◌, ◌≤◌, ◌<◌, ◌≡◌, arith}
use vex_lua.Table.Keys.{next_power_of_two}
use vex_lua.Table.Keys.Size.{next_power_of_two-bounds}

next_power_of_two-bounds_example :
    (k : ℕ) × (next_power_of_two 20 ≡ 2 ^ k) × (20 ≤ 2 ^ k) × (2 ^ k < 2 * 20)
next_power_of_two-bounds_example = next_power_of_two-bounds 20 (omega arith) (omega arith)
