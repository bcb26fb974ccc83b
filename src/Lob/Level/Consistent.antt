-- ===== src/Lob/Level/Consistent.antt =====
-- The invariant of a price level, luv_lob.hpp: `total_qty` and `order_count` against its slots, and its
-- list.
use fort.Base.{List, [], ℕ, ◌<◌, ◌≡◌, refl, true, none, arith}
use fort.Base.Int.{pos, ◌+ℤ◌, ◌≤ℤ◌, ◌<ℤ◌, int64_max}
use fort.Lob.Level.Slots.{alloc_from-none}
use fort.Lob.Level.Listed.{IsQueue, reset-IsQueue}
use fort.Lob.Level.{PriceLevel, is_active, alloc_slot, max_orders_per_level, reset_level}
use fort.Lob.Level.Sums.{sum_active, count_active, count_active_pos}

-- The total is the sum of the active quantities, each positive, the count their number; the total
-- is an int64_t; and the list chains the active slots.
pub record IsConsistent (lvl : PriceLevel) : Type 0 where
  pub total : lvl.total_qty ≡ sum_active max_orders_per_level lvl.orders
  pub counted : lvl.order_count ≡ count_active max_orders_per_level lvl.orders
  pub positive : (i : ℕ) → is_active (lvl.orders i) ≡ true → pos 0 <ℤ (lvl.orders i).qty
  pub fits : lvl.total_qty ≤ℤ int64_max
  pub queued : (is : List ℕ) × IsQueue lvl is

pub reset-IsConsistent : IsConsistent reset_level
unfolding sum_active count_active is_active ◌+ℤ◌
reset-IsConsistent = record {
  total = refl;
  counted = refl;
  positive = λ i h. cc;
  fits = omega arith;
  queued = ([], reset-IsQueue);
}

-- A level with no free slot holds orders.
pub alloc_slot-none :
    (lvl : PriceLevel) → IsConsistent lvl → alloc_slot lvl ≡ none → 0 < lvl.order_count
unfolding alloc_slot
alloc_slot-none lvl c h =
    let busy = alloc_from-none 16 0 lvl.orders 0 h (omega arith) (omega arith) in
    omega (arith, c.counted, count_active_pos lvl.orders c.positive 16 0 (omega arith) busy)
