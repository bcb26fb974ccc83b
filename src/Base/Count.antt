-- ===== src/Base/Count.antt =====
-- How many of the first `n` elements of an array pass a test.
use Prim.Native.Nat.{ℕ, zero, suc, ◌+◌, ◌≤◌, ◌<◌}
use mathlib.Core.Path.{◌≡◌, refl}
use mathlib.Core.Logic.{inl, inr}
use mathlib.Core.Bool.{Bool, true, false}
use native.Mathlib.Omega.{arith}
use fort.Base.Tests.{◌==◌, if◌then◌else◌, Bool-cases, ==_iff}
use fort.Base.Array.{update}

module _ {ℓ} {A : Type ℓ} (test : A → Bool) where
  abbrev pub one_if : A → ℕ
  one_if a = if test a then 1 else 0

  unfoldable pub count_below : ℕ → (ℕ → A) → ℕ
  count_below zero f = 0
  count_below (suc n) f = count_below n f + one_if (f n)

  count_below-outside :
      (n i : ℕ) (f : ℕ → A) (a : A) → n ≤ i → count_below n (update f i a) ≡ count_below n f
  unfolding count_below
  count_below-outside zero i f a h = refl
  count_below-outside (suc n) i f a h = ground (arith, count_below-outside n i f a)

  pub count_below-update :
      (n i : ℕ) (f : ℕ → A) (a : A)
      → i < n
      → count_below n (update f i a) + one_if (f i) ≡ count_below n f + one_if a
  unfolding count_below
  count_below-update zero i f a h = absurd (omega arith)
  count_below-update (suc n) i f a h = elim (Bool-cases (n == i)) [
    | inl q ↦
        let p = (==_iff n i).0 q in
        rw (q, p, count_below-outside i i f a (omega arith)) (omega arith)
    | inr q ↦ rw (q) (omega (arith, count_below-update n i f a (ground (arith, q, h))))
  ]

  pub count_below-le : (n : ℕ) (f : ℕ → A) → count_below n f ≤ n
  unfolding count_below
  count_below-le zero f = omega arith
  count_below-le (suc n) f = ground (arith, count_below-le n f)

  -- An array of which no element passes.
  pub count_below-none :
      (n : ℕ) (f : ℕ → A) → ((i : ℕ) → i < n → test (f i) ≡ false) → count_below n f ≡ 0
  unfolding count_below
  count_below-none zero f h = refl
  count_below-none (suc n) f h =
      ground (arith, h n, count_below-none n f (λ i l. h i (omega arith)))

  -- ... and of which every element passes.
  pub count_below-all :
      (n : ℕ) (f : ℕ → A) → ((i : ℕ) → i < n → test (f i) ≡ true) → count_below n f ≡ n
  unfolding count_below
  count_below-all zero f h = refl
  count_below-all (suc n) f h = ground (arith, h n, count_below-all n f (λ i l. h i (omega arith)))

  -- Where nothing is counted, nothing passes.
  pub none-of_count_below : (n i : ℕ) (f : ℕ → A) → count_below n f ≡ 0 → i < n → test (f i) ≡ false
  unfolding count_below
  none-of_count_below zero i f h k = absurd (omega arith)
  none-of_count_below (suc n) i f h k = elim (Bool-cases (i == n)) [
    | inl q ↦ rw ((==_iff i n).0 q) (ground (arith, h))
    | inr q ↦ none-of_count_below n i f (omega (arith, h)) (ground (arith, q, k))
  ]
