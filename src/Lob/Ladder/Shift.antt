-- ===== src/Lob/Ladder/Shift.antt =====
-- The insertion and the removal of a price level in luv_lob.hpp: where the levels go, and that the
-- side stays sorted.
use fort.Base.{
  ℕ, zero, suc, ◌+◌, ◌-◌, ◌≤◌, ◌<◌, ◌≡◌, ◌≢◌, inl, inr, true, false, arith, Bool-cases, ◌==◌, subst,
  update_self, ==_iff,
}
use fort.Base.Int.{ℤ, eqb_ℤ}
use fort.Lob.Level.{reset_level}
use fort.Lob.Ladder.{
  Ladder, price_at, ahead, insert_pos_from, insert_pos, open_gap, fill_gap, close_gap, drop_last,
}
use fort.Lob.Ladder.Order.{IsSorted, ahead_trans, ahead-total, eqb_ℤ-eq}

-- The side after `insert_level_impl`, and after `remove_level_if_empty` of an empty level.
abbrev pub inserted : Ladder → ℕ → ℤ → Ladder
inserted l pos price = fill_gap (open_gap l pos) pos price

abbrev pub removed : Ladder → ℕ → Ladder
removed l idx = drop_last (close_gap l idx)

module _ (side : ℕ) (l : Ladder) (price : ℤ) where
  insert_pos_from-bounds :
      (n i : ℕ)
      → let pos = insert_pos_from n side l price i in
        (i ≤ pos) × (pos ≤ i + n) × (pos < i + n → ahead side price (price_at l pos) ≡ true)
  unfolding insert_pos_from
  insert_pos_from-bounds zero i = (omega arith, omega arith, λ h. absurd (omega arith))
  insert_pos_from-bounds (suc n) i =
      let (a, b, c) = insert_pos_from-bounds n (i + 1) in
      elim (Bool-cases (ahead side price (price_at l i))) [
        | inl e ↦ rw e (omega arith, omega arith, λ h. e)
        | inr e ↦ rw e (omega arith, omega arith, λ h. c (omega arith))
      ]

  insert_pos_from-before :
      (n i j : ℕ)
      → i ≤ j
      → j < insert_pos_from n side l price i
      → ahead side price (price_at l j) ≡ false
  unfolding insert_pos_from
  insert_pos_from-before zero i j a b = absurd (omega arith)
  insert_pos_from-before (suc n) i j a b = elim (Bool-cases (ahead side price (price_at l i))) [
    | inl e ↦ absurd (omega (arith, rw e at b))
    | inr e ↦ elim (Bool-cases (i == j)) [
      | inl p ↦ subst (λ k. ahead side price (price_at l k) ≡ false) ((==_iff i j).0 p) e
      | inr p ↦ insert_pos_from-before n (i + 1) j (ground arith) (rw e at b)
    ]
  ]

  module _ (sorted : IsSorted side l) (absent : (i : ℕ) → i < l.count → price_at l i ≢ price) where
    abbrev pos : ℕ
    pos = insert_pos side l price

    pub pos_bounds : (pos ≤ l.count) × (pos < l.count → ahead side price (price_at l pos) ≡ true)
    unfolding insert_pos
    pos_bounds =
        let (a, b, c) = insert_pos_from-bounds l.count 0 in (omega arith, λ h. c (omega arith))

    behind_before : (i : ℕ) → i < pos → i < l.count → ahead side (price_at l i) price ≡ true
    unfolding insert_pos
    behind_before i a b =
        ahead-total side price (price_at l i) (insert_pos_from-before l.count 0 i (omega arith) a)
          (elim (Bool-cases (eqb_ℤ (price_at l i) price)) [
            | inl e ↦ absurd (absent i b (eqb_ℤ-eq (price_at l i) price e))
            | inr e ↦ e
          ])

    ahead_after : (i : ℕ) → pos ≤ i → i < l.count → ahead side price (price_at l i) ≡ true
    ahead_after i a b = elim (Bool-cases (pos == i)) [
      | inl e ↦
          subst (λ k. ahead side price (price_at l k) ≡ true) ((==_iff pos i).0 e)
            (pos_bounds.1 (ground arith))
      | inr e ↦
          ahead_trans side price (price_at l pos) (price_at l i) (pos_bounds.1 (ground arith))
            (sorted pos i (ground arith) b)
    ]

    -- The side stays sorted when a price that it does not have is inserted at `insert_pos`.
    pub inserted-IsSorted : IsSorted side (inserted l pos price)
    unfolding open_gap fill_gap
    inserted-IsSorted i j a b = ground (
      arith,
      pos_bounds,
      behind_before i,
      ahead_after (j - 1),
      sorted i j,
      sorted i (j - 1),
      sorted (i - 1) (j - 1),
    )

module _ (side : ℕ) (l : Ladder) (idx : ℕ) (sorted : IsSorted side l) where
  -- The side stays sorted when a level is removed.
  pub removed-IsSorted : IsSorted side (removed l idx)
  unfolding close_gap drop_last
  removed-IsSorted i j a b = ground (arith, sorted i j, sorted i (j + 1), sorted (i + 1) (j + 1))

-- Where each level stands after the shifts.
module _ (l : Ladder) (at i : ℕ) (price : ℤ) where
  pub removed-level_before : i < at → i < l.count - 1 → (removed l at).level i ≡ l.level i
  unfolding close_gap drop_last
  removed-level_before a b = ground arith

  pub removed-level_after : at ≤ i → i < l.count - 1 → (removed l at).level i ≡ l.level (i + 1)
  unfolding close_gap drop_last
  removed-level_after a b = ground arith

  pub inserted-level_before : i < at → (inserted l at price).level i ≡ l.level i
  unfolding open_gap fill_gap
  inserted-level_before a = ground arith

  pub inserted-level_after : at < i → i ≤ l.count → (inserted l at price).level i ≡ l.level (i - 1)
  unfolding open_gap fill_gap
  inserted-level_after a b = ground arith

pub inserted-level_self :
    (l : Ladder) (at : ℕ) (price : ℤ)
    → (inserted l at price).level at ≡ record reset_level { price = price }
unfolding open_gap fill_gap
inserted-level_self l at price =
    update_self (open_gap l at).level at (record reset_level { price = price })
