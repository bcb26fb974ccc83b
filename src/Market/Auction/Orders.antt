-- ===== src/Market/Auction/Orders.antt =====
-- The orders of AuctionCrossEngine in luv_auction.hpp: the count is that of the active ones, so that a slot
-- is free as long as the count says so.
use fort.Base.{
  ℕ, zero, suc, ◌+◌, ◌≤◌, ◌<◌, ◌≡◌, ◌↔◌, inl, inr, refl, sym, Bool, true, false, ◌||◌, none, some,
  arith, leb, ◌==◌, if◌then◌else◌, update, Bool-cases, Option-cases, ==_iff, count_below,
  count_below-update, count_below-all, count_below-none,
}
use fort.Base.Int.{ℤ, pos, ◌<ℤ◌, leb_ℤ}
use fort.Market.Auction.{
  AuctionOrder, AuctionCrossEngine, auction_cross_engine, no_auction_order, max_auction_orders,
  free_slot_from, add_auction_order, reset,
}

abbrev pub is_on : AuctionOrder → Bool
is_on o = o.active

pub record IsAuction (a : AuctionCrossEngine) : Type 0 where
  pub counted : a.order_count ≡ count_below is_on max_auction_orders a.orders
  pub positive : (i : ℕ) → (a.orders i).active ≡ true → pos 0 <ℤ (a.orders i).qty

pub auction_cross_engine-IsAuction : IsAuction auction_cross_engine
auction_cross_engine-IsAuction = record {
  counted =
      omega
        (arith, count_below-none is_on max_auction_orders (λ i. no_auction_order) (λ i l. refl));
  positive = λ i h. cc;
}

pub reset-IsAuction : (a : AuctionCrossEngine) → IsAuction (reset a)
unfolding reset
reset-IsAuction a = record {
  counted = omega (arith, count_below-none is_on max_auction_orders (reset a).orders (λ i l. refl));
  positive = λ i h. cc;
}

free_slot_from-some :
    (n i : ℕ) (f : ℕ → AuctionOrder) (k : ℕ)
    → free_slot_from n i f ≡ some k
    → (k < i + n) × ((f k).active ≡ false)
unfolding free_slot_from
free_slot_from-some zero i f k h = cc
free_slot_from-some (suc n) i f k h = ground (arith, h, free_slot_from-some n (i + 1) f k)

free_slot_from-none :
    (n i : ℕ) (f : ℕ → AuctionOrder) (k : ℕ)
    → free_slot_from n i f ≡ none
    → i ≤ k
    → k < i + n
    → (f k).active ≡ true
unfolding free_slot_from
free_slot_from-none zero i f k h a b = absurd (omega (arith, a, b))
free_slot_from-none (suc n) i f k h a b = elim (Bool-cases (i == k)) [
  | inl q ↦ rw (sym ((==_iff i k).0 q)) (ground (arith, h))
  | inr q ↦ ground (arith, h, a, b, q, free_slot_from-none n (i + 1) f k)
]

-- `add_auction_order` succeeds exactly if fewer than 2048 orders are active and the quantity is positive, it
-- counts the order then, and keeps the count that of the active orders and their quantities positive.
pub add_auction_order-IsAuction :
    (a : AuctionCrossEngine) (id symbol side : ℕ) (price qty : ℤ) (is_market : Bool)
    → IsAuction a
    → let (ok, a') = add_auction_order a id symbol side price qty is_market in
      IsAuction a'
      × ((ok ≡ true) ↔ ((a.order_count < max_auction_orders) × (pos 0 <ℤ qty)))
      × (a'.order_count ≡ a.order_count + (if ok then 1 else 0))
unfolding add_auction_order
add_auction_order-IsAuction a id symbol side price qty is_market v =
    elim (Bool-cases (leb max_auction_orders a.order_count || leb_ℤ qty (pos 0))) [
      | inl bad ↦ rw bad (v, (λ e. cc, λ e. ground (arith, bad, e)), omega arith)
      | inr good ↦ elim (Option-cases (free_slot_from max_auction_orders 0 a.orders)) [
        | inl e ↦
            let full = count_below-all is_on max_auction_orders a.orders (λ k l.
              free_slot_from-none max_auction_orders 0 a.orders k e (omega arith) (omega arith)) in
            let c = v.counted in absurd (ground (arith, full, c, good))
        | inr (i, e) ↦
            let (small, off) = free_slot_from-some max_auction_orders 0 a.orders i e in
            let o : AuctionOrder = record {
              order_id = id;
              symbol_idx = symbol;
              side = side;
              price = if is_market then pos 0 else price;
              qty = qty;
              is_market = is_market;
              active = true;
            } in
            let u = count_below-update is_on max_auction_orders i a.orders o small in
            let c = v.counted in
            let v' : IsAuction
                (record { orders = update a.orders i o; order_count = a.order_count + 1 }) =
              record {
                counted = ground (arith, u, c, off);
                positive = λ j h. ground (arith, h, good, v.positive j);
              } in
            rw (good, e) (v', (λ _. (ground (arith, good), ground (arith, good)), λ _. refl), refl)
      ]
    ]
