-- ===== src/Lob/Engine/Query.antt =====
-- The per-symbol queries of LOBEngine, luv_lob.hpp, and what they say of a well-formed book.
use fort.Base.{
  ℕ, zero, suc, ◌+◌, ◌-◌, ◌/◌, min, ◌≤◌, ◌<◌, ◌≡◌, refl, sym, ◌∙◌, ◌⊎◌, inl, inr, Bool-cases, Bool,
  true, false, ◌&&◌, ◌||◌, arith, ltb, leb, ◌==◌, if◌then◌else◌,
}
use fort.Base.Int.{
  ℤ, pos, negsuc, ◌+ℤ◌, ◌-ℤ◌, ◌≤ℤ◌, leb_ℤ, ltb_ℤ, eqb_ℤ, +ℤ_zero, zero_+ℤ, +ℤ_assoc,
}
use fort.Lob.RefMap.{symbols, max_orders_per_level}
use fort.Lob.Level.Sums.{sum_active}
use fort.Lob.Ladder.{Ladder, price_at, ahead}
use fort.Lob.Ladder.Order.{IsSorted, ahead_irrefl}
use fort.Lob.Ladder.Live.{IsLadder}
use fort.Lob.Book.{LobEngine}
use fort.Lob.Engine.Steps.{IsBook}

-- The price of the first level of a side, or 0 without levels.
abbrev pub best_price : LobEngine → ℕ → ℕ → ℤ
best_price e symbol side =
    if leb symbols symbol
    then pos 0
    else if (e.ladders symbol side).count == 0
    then pos 0
    else price_at (e.ladders symbol side) 0

pub best_bid_price : LobEngine → ℕ → ℤ
best_bid_price e symbol = best_price e symbol 0

pub best_ask_price : LobEngine → ℕ → ℤ
best_ask_price e symbol = best_price e symbol 1

-- Division by 2 rounds towards 0.
abbrev half : ℤ → ℤ
half (pos n) = pos (n / 2)
half (negsuc n) = pos 0 -ℤ pos (suc n / 2)

pub mid_price : LobEngine → ℕ → ℤ
mid_price e symbol =
    let bid = best_bid_price e symbol in
    let ask = best_ask_price e symbol in
    if leb symbols symbol || eqb_ℤ bid (pos 0) || eqb_ℤ ask (pos 0)
    then pos 0
    else half (bid +ℤ ask)

pub spread : LobEngine → ℕ → ℤ
spread e symbol =
    let bid = best_bid_price e symbol in
    let ask = best_ask_price e symbol in
    if leb symbols symbol || eqb_ℤ bid (pos 0) || eqb_ℤ ask (pos 0) then pos 0 else ask -ℤ bid

pub is_crossed : LobEngine → ℕ → Bool
is_crossed e symbol =
    let bid = best_bid_price e symbol in
    let ask = best_ask_price e symbol in
    if leb symbols symbol then false else ltb_ℤ (pos 0) bid && ltb_ℤ (pos 0) ask && leb_ℤ ask bid

pub is_stale : LobEngine → ℕ → ℕ → ℕ → Bool
is_stale e symbol now_ns timeout_ns =
    if leb symbols symbol
    then true
    else if e.last_timestamp symbol == 0
    then false
    else ltb (e.last_timestamp symbol) now_ns && ltb timeout_ns (now_ns - e.last_timestamp symbol)

-- The loop of `bid_depth_qty` and `ask_depth_qty` over the first `n` levels.
depth_from : ℕ → ℕ → Ladder → ℤ → ℤ
depth_from zero i l total = total
depth_from (suc n) i l total = depth_from n (i + 1) l (total +ℤ (l.level i).total_qty)

pub depth_qty : LobEngine → ℕ → ℕ → ℕ → ℤ
unfolding depth_from
depth_qty e symbol side levels =
    let l = e.ladders symbol side in
    if leb symbols symbol
    then pos 0
    else depth_from (if ltb levels l.count then levels else l.count) 0 l (pos 0)

pub bid_depth_qty : LobEngine → ℕ → ℕ → ℤ
unfolding depth_qty
bid_depth_qty e symbol levels = depth_qty e symbol 0 levels

pub ask_depth_qty : LobEngine → ℕ → ℕ → ℤ
unfolding depth_qty
ask_depth_qty e symbol levels = depth_qty e symbol 1 levels

lt→leb_false : (a b : ℕ) → a < b → leb b a ≡ false
lt→leb_false a b h = ground arith

min_by_test : (a b : ℕ) → (if ltb a b then a else b) ≡ min a b
min_by_test a b = ground arith

-- No level of a sorted side is ahead of the first.
first_ahead :
    (side : ℕ) (l : Ladder) (i : ℕ)
    → IsSorted side l
    → i < l.count
    → ahead side (price_at l i) (price_at l 0) ≡ false
unfolding ahead
first_ahead side l zero s h = ahead_irrefl side (price_at l 0)
first_ahead side l (suc i) s h = ground (arith, s 0 (suc i))

-- The active quantity of `n` levels of a side from level `i` on, order by order.
pub orders_qty : ℕ → ℕ → Ladder → ℤ
orders_qty zero i l = pos 0
orders_qty (suc n) i l =
    sum_active max_orders_per_level (l.level i).orders +ℤ orders_qty n (i + 1) l

depth_from-orders_qty :
    (side n i : ℕ) (l : Ladder) (total : ℤ)
    → IsLadder side l
    → i + n ≤ l.count
    → depth_from n i l total ≡ total +ℤ orders_qty n i l
unfolding depth_from orders_qty
depth_from-orders_qty side zero i l total v h = sym (+ℤ_zero total)
depth_from-orders_qty side (suc n) i l total v h =
    depth_from-orders_qty side n (i + 1) l (total +ℤ (l.level i).total_qty) v (omega arith)
    ∙ rw ((v.live i (omega arith)).consistent.total)
        (+ℤ_assoc total (sum_active 16 (l.level i).orders) (orders_qty n (i + 1) l))

-- The price is one of the side, and as good as every other; or there is none, and it is 0.
abbrev pub IsLeading : (ℤ → ℤ → Type 0) → Ladder → ℤ → Type 0
IsLeading P l p =
    ((l.count ≡ 0) × (p ≡ pos 0))
    ⊎ ((i : ℕ) × (i < l.count) × (p ≡ price_at l i) × ((j : ℕ) → j < l.count → P p (price_at l j)))

module _ (e : LobEngine) (b : IsBook e) (symbol : ℕ) (known : symbol < symbols) where
  -- In a well-formed book the best bid is the price of a bid of the symbol, and no bid is above it, or it is
  -- 0 and there are no bids; and so for the best ask, which no ask is below.
  pub best_price-IsLeading :
      IsLeading (λ p q. q ≤ℤ p) (e.ladders symbol 0) (best_bid_price e symbol)
      × IsLeading (λ p q. p ≤ℤ q) (e.ladders symbol 1) (best_ask_price e symbol)
  unfolding best_bid_price best_ask_price ahead
  best_price-IsLeading = (
    best_side (λ p q. q ≤ℤ p) 0
        (λ i h. ground (arith, first_ahead 0 (e.ladders symbol 0) i (b symbol 0).sorted h)),
    best_side (λ p q. p ≤ℤ q) 1
        (λ i h. ground (arith, first_ahead 1 (e.ladders symbol 1) i (b symbol 1).sorted h)),
  )
    where
      best_side :
          (P : ℤ → ℤ → Type 0) (side : ℕ)
          → ((i : ℕ)
              → i < (e.ladders symbol side).count
              → P (price_at (e.ladders symbol side) 0) (price_at (e.ladders symbol side) i))
          → IsLeading P (e.ladders symbol side) (best_price e symbol side)
      best_side P side first = elim (Bool-cases ((e.ladders symbol side).count == 0)) [
        | inl none_there ↦
            rw (lt→leb_false symbol symbols known, none_there)
              (inl (ground (arith, none_there), refl))
        | inr some_there ↦
            rw (lt→leb_false symbol symbols known, some_there)
              (inr (0, ground (arith, some_there), refl, first))
      ]

  -- In a well-formed book the depth of a side over `levels` levels is the sum of the quantities of
  -- the active orders on its first levels, as many as there are up to `levels`.
  pub depth_qty-orders_qty :
      (levels : ℕ)
      → (bid_depth_qty e symbol levels
          ≡ orders_qty (min levels (e.ladders symbol 0).count) 0 (e.ladders symbol 0))
        × (ask_depth_qty e symbol levels
            ≡ orders_qty (min levels (e.ladders symbol 1).count) 0 (e.ladders symbol 1))
  unfolding bid_depth_qty ask_depth_qty
  depth_qty-orders_qty levels = (depth_side 0, depth_side 1)
    where
      depth_side :
          (side : ℕ)
          → depth_qty e symbol side levels
            ≡ orders_qty (min levels (e.ladders symbol side).count) 0 (e.ladders symbol side)
      depth_side side =
          let l = e.ladders symbol side in
          rw ((lt→leb_false symbol symbols known), min_by_test levels l.count)
            (depth_from-orders_qty side (min levels l.count) 0 l (pos 0) (b symbol side)
                (omega arith)
              ∙ zero_+ℤ (orders_qty (min levels l.count) 0 l))
