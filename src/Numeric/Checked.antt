-- ===== src/Numeric/Checked.antt =====
-- The checked operations of luv_numeric_limits.hpp against the exact integers.
use fort.Base.{◌≡◌, none, some, arith}
use fort.Base.Int.{ℤ, ◌+ℤ◌, ◌-ℤ◌, +ℤ_parts, -ℤ_parts, FitsInt64, int64_max, int64_min}
use fort.Numeric.{checked_add, checked_sub}

module _ (a b : ℤ) where
  -- `checked_add` on two int64_t values returns the exact sum if that is an int64_t, and fails
  -- if it is not; what it returns is the sum and is an int64_t.
  pub checked_add_exact :
      FitsInt64 a
      → FitsInt64 b
      → (FitsInt64 (a +ℤ b) → checked_add a b ≡ some (a +ℤ b))
        × (¬ FitsInt64 (a +ℤ b) → checked_add a b ≡ none)
        × ((r : ℤ) → checked_add a b ≡ some r → (r ≡ a +ℤ b) × FitsInt64 r)
  unfolding checked_add
  checked_add_exact ha hb = (
    λ h. ground (arith, -ℤ_parts int64_max b, -ℤ_parts int64_min b, +ℤ_parts a b),
    λ h. ground (arith, -ℤ_parts int64_max b, -ℤ_parts int64_min b, +ℤ_parts a b),
    λ r h. ground (arith, -ℤ_parts int64_max b, -ℤ_parts int64_min b, +ℤ_parts a b),
  )

  -- `checked_sub` on two int64_t values returns the exact difference if that is an int64_t, and
  -- fails if it is not; what it returns is the difference and is an int64_t.
  pub checked_sub_exact :
      FitsInt64 a
      → FitsInt64 b
      → (FitsInt64 (a -ℤ b) → checked_sub a b ≡ some (a -ℤ b))
        × (¬ FitsInt64 (a -ℤ b) → checked_sub a b ≡ none)
        × ((r : ℤ) → checked_sub a b ≡ some r → (r ≡ a -ℤ b) × FitsInt64 r)
  unfolding checked_sub
  checked_sub_exact ha hb = (
    λ h. ground (arith, +ℤ_parts int64_max b, +ℤ_parts int64_min b, -ℤ_parts a b),
    λ h. ground (arith, +ℤ_parts int64_max b, +ℤ_parts int64_min b, -ℤ_parts a b),
    λ r h. ground (arith, +ℤ_parts int64_max b, +ℤ_parts int64_min b, -ℤ_parts a b),
  )
