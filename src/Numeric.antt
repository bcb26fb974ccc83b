-- ===== src/Numeric.antt =====
-- luv_numeric_limits.hpp: the ranges of prices and quantities, and arithmetic on int64_t that reports
-- an overflow. A result that the source writes through a reference is an `Option`.
pub mod Checked
pub mod Tests
use fort.Base.{ℕ, ◌^◌, ◌-◌, Bool, true, false, ◌&&◌, ◌||◌, Option, none, some, if◌then◌else◌}
use fort.Base.Int.{ℤ, pos, negsuc, ◌+ℤ◌, ◌-ℤ◌, ◌*ℤ◌, ltb_ℤ, leb_ℤ, int64_max, int64_min}

abbrev pub min_price : ℤ
min_price = pos 1

abbrev pub max_price : ℤ
max_price = pos 0xffff_ffff

abbrev pub min_quantity : ℤ
min_quantity = pos 1

abbrev pub max_quantity : ℤ
max_quantity = pos 1_000_000_000

unfoldable pub is_valid_price : ℤ → Bool
is_valid_price value = leb_ℤ min_price value && leb_ℤ value max_price

unfoldable pub is_valid_quantity : ℤ → Bool
is_valid_quantity value = leb_ℤ min_quantity value && leb_ℤ value max_quantity

unfoldable pub checked_add : ℤ → ℤ → Option ℤ
checked_add lhs rhs =
    if (ltb_ℤ (pos 0) rhs && ltb_ℤ (int64_max -ℤ rhs) lhs)
      || (ltb_ℤ rhs (pos 0) && ltb_ℤ lhs (int64_min -ℤ rhs))
    then none
    else some (lhs +ℤ rhs)

unfoldable pub checked_sub : ℤ → ℤ → Option ℤ
checked_sub lhs rhs =
    if (ltb_ℤ rhs (pos 0) && ltb_ℤ (int64_max +ℤ rhs) lhs)
      || (ltb_ℤ (pos 0) rhs && ltb_ℤ lhs (int64_min +ℤ rhs))
    then none
    else some (lhs -ℤ rhs)

-- `__builtin_mul_overflow`: the exact product, if it is in range.
unfoldable pub checked_mul : ℤ → ℤ → Option ℤ
checked_mul lhs rhs =
    let product = lhs *ℤ rhs in
    if leb_ℤ int64_min product && leb_ℤ product int64_max then some product else none
