-- ===== src/Market/Auction/Tests.antt =====
-- Runs of AuctionCrossEngine in luv_auction.hpp on a few orders.
use fort.Base.{ℕ, ◌≡◌, refl, true, false, [], ◌∷◌, arith, ◌==◌, if◌then◌else◌}
use fort.Base.Int.{wrap64, ℤ, pos, ◌+ℤ◌, ◌-ℤ◌, ◌≤ℤ◌, ◌<ℤ◌}
use fort.Market.Auction.{
  AuctionOrder, AuctionCrossEngine, auction_cross_engine, no_auction_order, max_auction_orders,
  volumes, min_ℤ, distance_ℤ, compute_noii, add_auction_order, sort, best_of, improve, add_volume,
  collect_prices,
}
use fort.Market.Auction.Optimal.{largest_qty, compute_noii-maximal}

abbrev limit_order : ℕ → ℤ → ℤ → AuctionOrder
limit_order side price qty = record no_auction_order {
  symbol_idx = 3;
  side = side;
  price = price;
  qty = qty;
  active = true;
}

-- Buyers at 102 and 100, and a seller at 101.
abbrev three_orders : ℕ → AuctionOrder
three_orders i =
    if i == 0
    then limit_order 0 (pos 102) (pos 30)
    else if i == 1
    then limit_order 0 (pos 100) (pos 50)
    else if i == 2
    then limit_order 1 (pos 101) (pos 40)
    else no_auction_order

abbrev book : AuctionCrossEngine
book = record { orders = three_orders; order_count = 3 }

volumes_101 : volumes 3 three_orders 3 (pos 101) ≡ (pos 30, pos 40)
unfolding volumes add_volume ◌+ℤ◌ wrap64
volumes_101 = refl

sorted : sort (collect_prices 3 three_orders 3) ≡ pos 100 ∷ pos 101 ∷ pos 102 ∷ []
unfolding sort collect_prices
sorted = refl

best_101 :
    (best_of
      (volumes 3 three_orders 3)
      (pos 100 ∷ pos 101 ∷ pos 102 ∷ [])
      (record { best_price = pos 99; max_paired = pos 0; min_imbalance = pos 1000 })).best_price
    ≡ pos 101
unfolding best_of improve volumes add_volume ◌+ℤ◌ ◌-ℤ◌ wrap64
best_101 = refl

book_sizes :
    (j : ℕ)
    → (book.orders j).active ≡ true
    → (pos 0 <ℤ (book.orders j).qty) × ((book.orders j).qty ≤ℤ largest_qty)
book_sizes j h = ground (arith, h)

compute_noii-maximal_example :
    let noii = compute_noii book 3 (pos 99) in
    let (best_b, best_s) = volumes max_auction_orders book.orders 3 noii.indicative_match_price in
    let (b, s) = volumes max_auction_orders book.orders 3 (pos 105) in
    (noii.symbol_idx ≡ 3)
    × (noii.paired_qty ≡ min_ℤ best_b best_s)
    × (noii.imbalance_qty ≡ distance_ℤ best_b best_s)
    × (min_ℤ b s ≤ℤ noii.paired_qty)
compute_noii-maximal_example =
    compute_noii-maximal book 3 (pos 99) (pos 105) 1 book_sizes (omega arith) refl

-- An order without a quantity is refused.
no_quantity : (add_auction_order auction_cross_engine 1 3 0 (pos 102) (pos 0) false).0 ≡ false
unfolding add_auction_order
no_quantity = refl
