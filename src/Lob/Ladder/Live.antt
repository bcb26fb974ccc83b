-- ===== src/Lob/Ladder/Live.antt =====
-- The invariant of one side of a book in luv_lob.hpp, and how the insertion and the removal of a level
-- keep it.
use fort.Base.{
  ℕ, ◌+◌, ◌-◌, ◌≤◌, ◌<◌, ◌≡◌, ◌≢◌, inl, inr, arith, ltb, ltb→lt, Bool-cases, ◌==◌, subst, sym,
  update_self, update_ne, ==_iff,
}
use fort.Base.Int.{ℤ}
use fort.Lob.RefMap.{levels_per_side}
use fort.Lob.Level.{PriceLevel, reset_level}
use fort.Lob.Level.Consistent.{IsConsistent, reset-IsConsistent}
use fort.Lob.Ladder.{
  Ladder, price_at, insert_pos, open_gap, fill_gap, close_gap, drop_last, put_level,
}
use fort.Lob.Ladder.Order.{IsSorted}
use fort.Lob.Ladder.Shift.{
  inserted, removed, inserted-IsSorted, removed-IsSorted, pos_bounds, removed-level_before,
  removed-level_after, inserted-level_before, inserted-level_after, inserted-level_self,
}

-- A level that holds orders, with the right aggregates.
pub record IsLive (lvl : PriceLevel) : Type 0 where
  pub consistent : IsConsistent lvl
  pub occupied : 0 < lvl.order_count

-- The side is within its depth and sorted, and its active levels are live.
pub record IsLadder (side : ℕ) (l : Ladder) : Type 0 where
  pub deep : l.count ≤ levels_per_side
  pub sorted : IsSorted side l
  pub live : (i : ℕ) → i < l.count → IsLive (l.level i)

-- The same in the middle of a handler: the level `at` is consistent, and may be empty.
pub record IsAlmost (side at : ℕ) (l : Ladder) : Type 0 where
  pub deep : l.count ≤ levels_per_side
  pub sorted : IsSorted side l
  pub inside : at < l.count
  pub consistent : IsConsistent (l.level at)
  pub live : (i : ℕ) → i ≢ at → i < l.count → IsLive (l.level i)

-- The same with nothing said of the level `at` but its price.
pub record IsHole (side at : ℕ) (l : Ladder) : Type 0 where
  pub deep : l.count ≤ levels_per_side
  pub sorted : IsSorted side l
  pub inside : at < l.count
  pub live : (i : ℕ) → i ≢ at → i < l.count → IsLive (l.level i)

module _ (side at : ℕ) (l : Ladder) where
  pub IsAlmost-IsHole : IsAlmost side at l → IsHole side at l
  IsAlmost-IsHole v = record { deep = v.deep; sorted = v.sorted; inside = v.inside; live = v.live }

  pub IsLadder-IsAlmost : IsLadder side l → at < l.count → IsAlmost side at l
  IsLadder-IsAlmost v h = record {
    deep = v.deep;
    sorted = v.sorted;
    inside = h;
    consistent = (v.live at h).consistent;
    live = λ i _. v.live i;
  }

  pub IsAlmost-IsLadder : IsAlmost side at l → 0 < (l.level at).order_count → IsLadder side l
  IsAlmost-IsLadder v h = record {
    deep = v.deep;
    sorted = v.sorted;
    live = λ i b. elim (Bool-cases (i == at)) [
      | inl e ↦
          subst (λ k. IsLive (l.level k)) (sym ((==_iff i at).0 e))
            (record { consistent = v.consistent; occupied = h })
      | inr e ↦ v.live i (λ p. ground (arith, p)) b
    ];
  }

  put_level-IsSorted :
      (lvl : PriceLevel)
      → IsSorted side l
      → lvl.price ≡ price_at l at
      → IsSorted side (put_level l at lvl)
  put_level-IsSorted lvl s p i j a b = ground (arith, s i j)

  -- The level `at` is changed, at its price, to a consistent one.
  pub put_level-IsAlmost :
      (lvl : PriceLevel)
      → IsHole side at l
      → IsConsistent lvl
      → lvl.price ≡ price_at l at
      → IsAlmost side at (put_level l at lvl)
  put_level-IsAlmost lvl v c p = record {
    deep = v.deep;
    sorted = put_level-IsSorted lvl v.sorted p;
    inside = v.inside;
    consistent = subst IsConsistent (sym (update_self l.level at lvl)) c;
    live = λ i h b. subst IsLive (sym (update_ne l.level at i lvl h)) (v.live i h b);
  }

  pub put_level-IsHole :
      (lvl : PriceLevel)
      → IsHole side at l
      → lvl.price ≡ price_at l at
      → IsHole side at (put_level l at lvl)
  put_level-IsHole lvl v p = record {
    deep = v.deep;
    sorted = put_level-IsSorted lvl v.sorted p;
    inside = v.inside;
    live = λ i h b. subst IsLive (sym (update_ne l.level at i lvl h)) (v.live i h b);
  }

  -- The level `at` is changed, at its price, to a live one.
  pub put_level-IsLadder :
      (lvl : PriceLevel)
      → IsHole side at l
      → IsLive lvl
      → lvl.price ≡ price_at l at
      → IsLadder side (put_level l at lvl)
  put_level-IsLadder lvl v c p = record {
    deep = v.deep;
    sorted = put_level-IsSorted lvl v.sorted p;
    live = λ i b. elim (Bool-cases (i == at)) [
      | inl e ↦ rw e c
      | inr e ↦ rw e (v.live i (λ q. ground (arith, q)) b)
    ];
  }

  -- The level `at` is removed, before the last level ...
  pub removed-IsLadder : IsAlmost side at l → at < l.count - 1 → IsLadder side (removed l at)
  unfolding close_gap drop_last
  removed-IsLadder v h = record {
    deep = omega (arith, v.deep);
    sorted = removed-IsSorted side l at v.sorted;
    live = λ i b. elim (Bool-cases (ltb i at)) [
      | inl e ↦
          let lt = ltb→lt i at e in
          subst IsLive (sym (removed-level_before l at i (price_at l at) lt b))
            (v.live i (λ p. omega arith) (omega arith))
      | inr e ↦
          subst IsLive (sym (removed-level_after l at i (price_at l at) (ground arith) b))
            (v.live (i + 1) (λ p. ground (arith, p)) (omega arith))
    ];
  }

  -- ... and as the last level.
  pub dropped-IsLadder : IsAlmost side at l → at ≡ l.count - 1 → IsLadder side (drop_last l)
  unfolding drop_last
  dropped-IsLadder v h = record {
    deep = omega (arith, v.deep);
    sorted = λ i j a b. ground (arith, v.sorted i j);
    live = λ i b.
        subst IsLive (sym (update_ne l.level (l.count - 1) i reset_level (λ p. omega arith)))
          (v.live i (λ p. omega arith) (omega arith));
  }

priced-IsConsistent : (price : ℤ) → IsConsistent (record reset_level { price = price })
priced-IsConsistent price = record {
  total = reset-IsConsistent.total;
  counted = reset-IsConsistent.counted;
  positive = reset-IsConsistent.positive;
  fits = reset-IsConsistent.fits;
  queued =
      let (is, v) = reset-IsConsistent.queued in
      (is, record { chain = v.chain; once = v.once; holds = v.holds });
}

module _ (side : ℕ) (l : Ladder) (price : ℤ) (v : IsLadder side l)
    (absent : (i : ℕ) → i < l.count → price_at l i ≢ price) (room : l.count < levels_per_side) where
  -- A level for a price that the side does not have is inserted, empty.
  pub inserted-IsAlmost : let at = insert_pos side l price in IsAlmost side at (inserted l at price)
  unfolding open_gap fill_gap
  inserted-IsAlmost = record {
    deep = omega arith;
    sorted = inserted-IsSorted side l price v.sorted absent;
    inside = omega (arith, pos_bounds side l price v.sorted absent);
    consistent =
        subst IsConsistent (sym (inserted-level_self l (insert_pos side l price) price))
          (priced-IsConsistent price);
    live = λ i h b. elim (Bool-cases (ltb i (insert_pos side l price))) [
      | inl e ↦
          let lt = ltb→lt i (insert_pos side l price) e in
          subst IsLive (sym (inserted-level_before l (insert_pos side l price) i price lt))
            (v.live i (omega (arith, pos_bounds side l price v.sorted absent)))
      | inr e ↦
          let gt : insert_pos side l price < i = ground (arith, h) in
          subst IsLive
            (sym (inserted-level_after l (insert_pos side l price) i price gt (omega arith)))
            (v.live (i - 1) (omega arith))
    ];
  }
