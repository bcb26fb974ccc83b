-- ===== src/Numeric/Tests.antt =====
-- The checked operations of luv_numeric_limits.hpp at the ends of int64_t.
use fort.Base.{◌≡◌, refl, none, some, arith}
use fort.Base.Int.{ℤ, pos, ◌+ℤ◌, ◌*ℤ◌, FitsInt64, int64_max}
use fort.Numeric.{checked_add, checked_mul}
use fort.Numeric.Checked.{checked_add_exact}

checked_mul_overflow : checked_mul (pos 0x1_0000_0000) (pos 0x8000_0000) ≡ none
unfolding checked_mul ◌*ℤ◌
checked_mul_overflow = refl

checked_add_exact_example :
    (FitsInt64 (int64_max +ℤ pos 1) → checked_add int64_max (pos 1) ≡ some (int64_max +ℤ pos 1))
    × (¬ FitsInt64 (int64_max +ℤ pos 1) → checked_add int64_max (pos 1) ≡ none)
    × ((r : ℤ) → checked_add int64_max (pos 1) ≡ some r → (r ≡ int64_max +ℤ pos 1) × FitsInt64 r)
checked_add_exact_example = checked_add_exact int64_max (pos 1) (omega arith) (omega arith)
