-- ===== src/Market/Auction.antt =====
-- AuctionCrossEngine of luv_auction.hpp: the orders are a function on the 2048 slots, and the collected
-- prices a list. Volumes are exact integers.
pub mod Optimal
pub mod Prices
pub mod Orders
pub mod Tests
use fort.Base.{
  ℕ, zero, suc, ◌+◌, ◌^◌, Bool, true, false, not, ◌&&◌, ◌||◌, Option, none, some, List, [], ◌∷◌,
  ◌++◌, ltb, leb, ◌==◌, if◌then◌else◌, update,
}
use fort.Base.Int.{wrap64, ℤ, pos, ◌-ℤ◌, ◌+ℤ◌, ltb_ℤ, leb_ℤ, eqb_ℤ, int64_max}

pub record AuctionOrder : Type 0 where
  pub order_id : ℕ
  pub symbol_idx : ℕ
  pub side : ℕ
  pub price : ℤ
  pub qty : ℤ
  pub is_market : Bool
  pub active : Bool

pub data ImbalanceSide : Type 0 where
  no_imbalance buy_imbalance sell_imbalance : ImbalanceSide

pub record NoiiSnapshot : Type 0 where
  pub symbol_idx : ℕ
  pub indicative_match_price : ℤ
  pub paired_qty : ℤ
  pub imbalance_qty : ℤ
  pub imbalance_side : ImbalanceSide
  pub far_price : ℤ
  pub near_price : ℤ

pub record AuctionCrossEngine : Type 0 where
  pub orders : ℕ → AuctionOrder
  pub order_count : ℕ

abbrev pub max_auction_orders : ℕ
max_auction_orders = 2048

abbrev pub no_auction_order : AuctionOrder
no_auction_order = record {
  order_id = 0;
  symbol_idx = 0;
  side = 0;
  price = pos 0;
  qty = pos 0;
  is_market = false;
  active = false;
}

abbrev pub auction_cross_engine : AuctionCrossEngine
auction_cross_engine = record { orders = λ i. no_auction_order; order_count = 0 }

-- The scan of `add_auction_order` from slot `i` on.
unfoldable pub free_slot_from : ℕ → ℕ → (ℕ → AuctionOrder) → Option ℕ
free_slot_from zero i orders = none
free_slot_from (suc n) i orders =
    let rest = free_slot_from n (i + 1) orders in if not (orders i).active then some i else rest

unfoldable pub add_auction_order :
    AuctionCrossEngine → ℕ → ℕ → ℕ → ℤ → ℤ → Bool → Bool × AuctionCrossEngine
add_auction_order a order_id symbol_idx side price qty is_market =
    if leb max_auction_orders a.order_count || leb_ℤ qty (pos 0)
    then (false, a)
    else elim (free_slot_from max_auction_orders 0 a.orders) [
      | none ↦ (false, a)
      | some i ↦ (
        true,
        record {
          orders = update a.orders i (record {
            order_id = order_id;
            symbol_idx = symbol_idx;
            side = side;
            price = if is_market then pos 0 else price;
            qty = qty;
            is_market = is_market;
            active = true;
          });
          order_count = a.order_count + 1;
        },
      )
    ]

pub exists_price : List ℤ → ℤ → Bool
exists_price [] p = false
exists_price (q ∷ qs) p = eqb_ℤ q p || exists_price qs p

-- The loop that collects the prices of the symbol's limit orders, over the first `n` orders. At most `n`
-- prices are there before the last of them, so the test for room in the array always passes.
unfoldable pub collect_prices : ℕ → (ℕ → AuctionOrder) → ℕ → List ℤ
unfolding exists_price
collect_prices zero orders symbol = []
collect_prices (suc n) orders symbol =
    let ps = collect_prices n orders symbol in
    let o = orders n in
    if o.active && o.symbol_idx == symbol && not o.is_market && not (exists_price ps o.price)
    then ps ++ o.price ∷ []
    else ps

pub sort_insert : ℤ → List ℤ → List ℤ
sort_insert p [] = p ∷ []
sort_insert p (q ∷ qs) = if leb_ℤ p q then p ∷ q ∷ qs else q ∷ sort_insert p qs

-- `std::sort`
unfoldable pub sort : List ℤ → List ℤ
unfolding sort_insert
sort [] = []
sort (p ∷ ps) = sort_insert p (sort ps)

-- One order's part of the buy and the sell volume at a price.
unfoldable pub add_volume : ℕ → ℤ → AuctionOrder → ℤ × ℤ → ℤ × ℤ
add_volume symbol test_p o (buy_vol, sell_vol) =
    if not o.active || not (o.symbol_idx == symbol)
    then (buy_vol, sell_vol)
    else if o.side == 0
    then (
      if o.is_market || leb_ℤ test_p o.price then wrap64 (buy_vol +ℤ o.qty) else buy_vol,
      sell_vol,
    )
    else (
      buy_vol,
      if o.is_market || leb_ℤ o.price test_p then wrap64 (sell_vol +ℤ o.qty) else sell_vol,
    )

-- The loop over the first `n` orders.
unfoldable pub volumes : ℕ → (ℕ → AuctionOrder) → ℕ → ℤ → ℤ × ℤ
volumes zero orders symbol test_p = (pos 0, pos 0)
volumes (suc n) orders symbol test_p =
    add_volume symbol test_p (orders n) (volumes n orders symbol test_p)

abbrev pub min_ℤ : ℤ → ℤ → ℤ
min_ℤ a b = if ltb_ℤ b a then b else a

abbrev pub distance_ℤ : ℤ → ℤ → ℤ
distance_ℤ a b = let d = wrap64 (a -ℤ b) in if ltb_ℤ d (pos 0) then wrap64 (pos 0 -ℤ d) else d

-- The best price so far, the volume it pairs, and its imbalance.
pub record Best : Type 0 where
  pub best_price : ℤ
  pub max_paired : ℤ
  pub min_imbalance : ℤ

unfoldable pub improve : (ℤ → ℤ × ℤ) → ℤ → Best → Best
improve at test_p b =
    let (buy_vol, sell_vol) = at test_p in
    let paired = min_ℤ buy_vol sell_vol in
    let imbalance = distance_ℤ buy_vol sell_vol in
    if ltb_ℤ b.max_paired paired || (eqb_ℤ paired b.max_paired && ltb_ℤ imbalance b.min_imbalance)
    then record { best_price = test_p; max_paired = paired; min_imbalance = imbalance }
    else b

unfoldable pub best_of : (ℤ → ℤ × ℤ) → List ℤ → Best → Best
best_of at [] b = b
best_of at (p ∷ ps) b = best_of at ps (improve at p b)

-- The snapshot at the price that was found.
unfoldable pub snapshot_at : ℕ → ℤ → ℤ × ℤ → NoiiSnapshot
snapshot_at symbol best_price (total_buy, total_sell) = record {
  symbol_idx = symbol;
  indicative_match_price = best_price;
  paired_qty = min_ℤ total_buy total_sell;
  imbalance_qty = distance_ℤ total_buy total_sell;
  imbalance_side =
      if ltb_ℤ total_sell total_buy
      then buy_imbalance
      else if ltb_ℤ total_buy total_sell
      then sell_imbalance
      else no_imbalance;
  far_price = pos 0;
  near_price = pos 0;
}

-- `compute_noii` behind the collection of the prices.
unfoldable pub noii_from : AuctionCrossEngine → ℕ → ℤ → List ℤ → NoiiSnapshot
noii_from a symbol reference_price [] = record {
  symbol_idx = symbol;
  indicative_match_price = reference_price;
  paired_qty = pos 0;
  imbalance_qty = pos 0;
  imbalance_side = no_imbalance;
  far_price = pos 0;
  near_price = pos 0;
}
noii_from a symbol reference_price (p ∷ ps) =
    let at = volumes max_auction_orders a.orders symbol in
    let start : Best = record {
      best_price = reference_price;
      max_paired = pos 0;
      min_imbalance = int64_max;
    } in
    let b = best_of at (sort (p ∷ ps)) start in snapshot_at symbol b.best_price (at b.best_price)

unfoldable pub compute_noii : AuctionCrossEngine → ℕ → ℤ → NoiiSnapshot
unfolding noii_from
compute_noii a symbol reference_price =
    noii_from a symbol reference_price (collect_prices max_auction_orders a.orders symbol)

pub reset : AuctionCrossEngine → AuctionCrossEngine
reset a = record { orders = λ i. record (a.orders i) { active = false }; order_count = 0 }
