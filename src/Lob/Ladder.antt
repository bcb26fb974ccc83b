-- ===== src/Lob/Ladder.antt =====
-- One side of one book, luv_lob.hpp: the active price levels of a (symbol, side) pair, which the
-- source keeps as a row of the arena's slab and a counter of SymbolMeta. Levels are sorted, bids
-- descending and asks ascending.
pub mod Order
pub mod Search
pub mod Shift
pub mod Live
pub mod Tests
use fort.Base.{
  ℕ, zero, suc, ◌+◌, ◌-◌, ◌/◌, Bool, ◌&&◌, Option, none, some, ltb, leb, ◌==◌, if◌then◌else◌,
  update,
}
use fort.Base.Int.{ℤ, ltb_ℤ, eqb_ℤ}
use fort.Lob.Level.{PriceLevel, reset_level}

pub record Ladder : Type 0 where
  pub count : ℕ
  pub level : ℕ → PriceLevel

abbrev pub price_at : Ladder → ℕ → ℤ
price_at l i = (l.level i).price

-- A price that stands before another on the side: a higher bid, a lower ask.
unfoldable pub ahead : ℕ → ℤ → ℤ → Bool
ahead side p q = if side == 0 then ltb_ℤ q p else ltb_ℤ p q

-- The loop of `find_level`, from `low` up to `bound`, which is the source's `high` + 1. Each round
-- shrinks the range, so the number of levels is fuel enough.
unfoldable pub search_level : ℕ → ℕ → Ladder → ℤ → ℕ → ℕ → Option ℕ
search_level zero side l price low bound = none
search_level (suc fuel) side l price low bound =
    let mid = low + (bound - 1 - low) / 2 in
    let left = search_level fuel side l price low mid in
    let right = search_level fuel side l price (mid + 1) bound in
    if ltb low bound
    then (if eqb_ℤ (price_at l mid) price
        then some mid
        else if ahead side price (price_at l mid)
        then left
        else right)
    else none

unfoldable pub find_level : ℕ → Ladder → ℤ → Option ℕ
find_level side l price = search_level (suc l.count) side l price 0 l.count

-- The scan of `insert_level_impl` from level `i` on, with `n` levels left.
unfoldable pub insert_pos_from : ℕ → ℕ → Ladder → ℤ → ℕ → ℕ
insert_pos_from zero side l price i = i
insert_pos_from (suc n) side l price i =
    let rest = insert_pos_from n side l price (i + 1) in
    if ahead side price (price_at l i) then i else rest

unfoldable pub insert_pos : ℕ → Ladder → ℤ → ℕ
unfolding insert_pos_from
insert_pos side l price = insert_pos_from l.count side l price 0

-- memmove of the levels from `pos` on, one index down the slab.
unfoldable pub open_gap : Ladder → ℕ → Ladder
open_gap l pos = record l {
  level = λ i. if ltb pos i && leb i l.count then l.level (i - 1) else l.level i;
}

-- The new level at `pos`, and the counter.
unfoldable pub fill_gap : Ladder → ℕ → ℤ → Ladder
fill_gap l pos price = record {
  count = l.count + 1;
  level = update l.level pos (record reset_level { price = price });
}

-- memmove of the levels behind `idx`, one index up the slab.
unfoldable pub close_gap : Ladder → ℕ → Ladder
close_gap l idx = record l {
  level = λ i. if leb idx i && ltb i (l.count - 1) then l.level (i + 1) else l.level i;
}

-- The last level is cleared, and the counter.
unfoldable pub drop_last : Ladder → Ladder
drop_last l = record { count = l.count - 1; level = update l.level (l.count - 1) reset_level }

abbrev pub put_level : Ladder → ℕ → PriceLevel → Ladder
put_level l i lvl = record l { level = update l.level i lvl }
