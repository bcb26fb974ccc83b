-- ===== src/Lob/Level/Sums.antt =====
-- The quantity and the number of the active orders of a level, as sums over its slots, and what the
-- writes of luv_lob.hpp to a slot do to them.
use fort.Base.{
  ℕ, zero, suc, ◌+◌, ◌≤◌, ◌<◌, ◌≡◌, refl, inl, inr, true, Option, arith, subst, sym, ◌==◌, ==_iff,
  Bool-cases, if◌then◌else◌, update,
}
use fort.Base.Int.{ℤ, pos, ◌+ℤ◌, ◌≤ℤ◌, ◌<ℤ◌, +ℤ_rotate, +ℤ_under, +ℤ_parts}
use fort.Lob.Level.{OrderSlot, is_active, set_next, set_prev}

-- What a slot contributes to the aggregates of its level.
abbrev pub load : OrderSlot → ℤ
load s = if is_active s then s.qty else pos 0

abbrev pub tally : OrderSlot → ℕ
tally s = if is_active s then 1 else 0

unfoldable pub sum_active : ℕ → (ℕ → OrderSlot) → ℤ
sum_active zero orders = pos 0
sum_active (suc n) orders = load (orders n) +ℤ sum_active n orders

unfoldable pub count_active : ℕ → (ℕ → OrderSlot) → ℕ
count_active zero orders = 0
count_active (suc n) orders = tally (orders n) + count_active n orders

-- Two arrays of slots that differ in their links and ids alone.
abbrev pub SameLoad : (ℕ → OrderSlot) → (ℕ → OrderSlot) → Type 0
SameLoad f g = (i : ℕ) → ((f i).qty ≡ (g i).qty) × ((f i).flags ≡ (g i).flags)

pub SameLoad-trans : (f g h : ℕ → OrderSlot) → SameLoad f g → SameLoad g h → SameLoad f h
SameLoad-trans f g h a b i = ground (arith, a i, b i)

module _ (f g : ℕ → OrderSlot) (same : SameLoad f g) where
  pub sum_active-SameLoad : (n : ℕ) → sum_active n f ≡ sum_active n g
  unfolding sum_active is_active
  sum_active-SameLoad zero = refl
  sum_active-SameLoad (suc n) = ground (arith, same n, sum_active-SameLoad n)

  pub count_active-SameLoad : (n : ℕ) → count_active n f ≡ count_active n g
  unfolding count_active is_active
  count_active-SameLoad zero = refl
  count_active-SameLoad (suc n) = ground (arith, same n, count_active-SameLoad n)

pub set_next-SameLoad : (f : ℕ → OrderSlot) (i : ℕ) (v : Option ℕ) → SameLoad (set_next f i v) f
set_next-SameLoad f i v j = ground arith

pub set_prev-SameLoad : (f : ℕ → OrderSlot) (i : ℕ) (v : Option ℕ) → SameLoad (set_prev f i v) f
set_prev-SameLoad f i v j = ground arith

module _ (f : ℕ → OrderSlot) (i : ℕ) (v : OrderSlot) where
  sum_active-update_ge : (n : ℕ) → n ≤ i → sum_active n (update f i v) ≡ sum_active n f
  unfolding sum_active
  sum_active-update_ge zero h = refl
  sum_active-update_ge (suc n) h = ground (arith, sum_active-update_ge n)

  count_active-update_ge : (n : ℕ) → n ≤ i → count_active n (update f i v) ≡ count_active n f
  unfolding count_active
  count_active-update_ge zero h = refl
  count_active-update_ge (suc n) h = ground (arith, count_active-update_ge n)

  -- A write to one slot changes the sums by the difference of its contributions.
  pub sum_active-update :
      (n : ℕ) → i < n → sum_active n (update f i v) +ℤ load (f i) ≡ sum_active n f +ℤ load v
  unfolding sum_active
  sum_active-update zero h = elim h [ ]
  sum_active-update (suc n) h = elim (Bool-cases (n == i)) [
    | inl e ↦
        rw (e, sum_active-update_ge n (omega (arith, (==_iff n i).0 e)), ← (==_iff n i).0 e)
          (+ℤ_rotate (load v) (sum_active n f) (load (f n)))
    | inr e ↦ rw e (
        +ℤ_under (load (f n)) (sum_active n (update f i v)) (load (f i)) (sum_active n f) (load v)
          (sum_active-update n (ground arith)))
  ]

  pub count_active-update :
      (n : ℕ) → i < n → count_active n (update f i v) + tally (f i) ≡ count_active n f + tally v
  unfolding count_active
  count_active-update zero h = elim h [ ]
  count_active-update (suc n) h = ground (arith, count_active-update n, count_active-update_ge n)

-- Where every active quantity is positive, one of them is at most the sum, and the sum is not
-- negative; a slot that is active is counted.
module _ (f : ℕ → OrderSlot)
    (positive : (i : ℕ) → is_active (f i) ≡ true → pos 0 <ℤ (f i).qty) where
  pub sum_active_nonneg : (n : ℕ) → pos 0 ≤ℤ sum_active n f
  unfolding sum_active
  sum_active_nonneg zero = omega arith
  sum_active_nonneg (suc n) =
      ground (arith, positive n, sum_active_nonneg n, +ℤ_parts (load (f n)) (sum_active n f))

  pub qty-le-sum_active : (n i : ℕ) → i < n → is_active (f i) ≡ true → (f i).qty ≤ℤ sum_active n f
  unfolding sum_active
  qty-le-sum_active zero i h a = elim h [ ]
  qty-le-sum_active (suc n) i h a = elim (Bool-cases (n == i)) [
    | inl e ↦
        let p = (==_iff n i).0 e in
        rw (← p) (
          ground (
            arith,
            subst (λ k. is_active (f k) ≡ true) (sym p) a,
            sum_active_nonneg n,
            +ℤ_parts (load (f n)) (sum_active n f),
          ))
    | inr e ↦
        let ih = qty-le-sum_active n i (ground arith) a in
        ground (arith, positive n, ih, +ℤ_parts (load (f n)) (sum_active n f))
  ]

  pub count_active_pos : (n i : ℕ) → i < n → is_active (f i) ≡ true → 0 < count_active n f
  unfolding count_active
  count_active_pos zero i h a = elim h [ ]
  count_active_pos (suc n) i h a = elim (Bool-cases (n == i)) [
    | inl e ↦
        let p = (==_iff n i).0 e in
        let q = subst (λ k. is_active (f k) ≡ true) (sym p) a in ground arith
    | inr e ↦ let ih = count_active_pos n i (ground arith) a in omega (arith, ih)
  ]
