-- ===== src/Market/Contingent/Tests.antt =====
-- Runs of ContingentOrderManager in luv_contingent_orders.hpp.
use fort.Base.{◌≡◌, refl, false, arith}
use fort.Market.Contingent.{
  active, triggered, cancelled, ContingentOrderManager, contingent_order_manager, is_active,
  add_oco_pair, add_trailing_stop, on_market_price, price_order, trail, find_id, find_active,
  cancel_order, on_order_fill,
}
use fort.Market.Contingent.Reach.{here, next, pair, fill, Reach-exclusive}

-- A pair with the ids 1 and 2, of which the first is filled.
abbrev one_pair : ContingentOrderManager
one_pair = (add_oco_pair contingent_order_manager 1 105 2 95 false 10).1

abbrev pair_filled : ContingentOrderManager
pair_filled = on_order_fill one_pair 1

partner_state : (pair_filled.orders 1).state ≡ cancelled
unfolding add_oco_pair on_order_fill cancel_order find_id find_active
partner_state = refl

Reach-exclusive_example : is_active (pair_filled.orders 1).state ≡ false
unfolding add_oco_pair on_order_fill cancel_order find_id find_active
Reach-exclusive_example =
    Reach-exclusive pair_filled 0 1
      (next
        (next here (
          pair contingent_order_manager 1 105 2 95 false 10 (omega arith) (omega arith)
            (omega arith) (λ i h. absurd (omega (arith, h))) (λ i h. absurd (omega (arith, h)))))
        (fill one_pair 1))
      (omega arith) (omega arith) refl refl refl

-- A sell stop that trails by 5 from 100: the price rises to 110, falls to 105, and triggers it.
abbrev one_stop : ContingentOrderManager
one_stop = (add_trailing_stop contingent_order_manager 7 false 100 5 10).1

stop_triggered : ((on_market_price (on_market_price one_stop 110) 105).orders 0).state ≡ triggered
unfolding add_trailing_stop on_market_price price_order trail
stop_triggered = refl

stop_waits : ((on_market_price (on_market_price one_stop 110) 106).orders 0).state ≡ active
unfolding add_trailing_stop on_market_price price_order trail
stop_waits = refl
