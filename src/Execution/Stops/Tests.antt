-- ===== src/Execution/Stops/Tests.antt =====
-- Runs of StopOrderTable in luv_execution.hpp on a few triggers.
use fort.Base.{ℕ, ◌+◌, ◌≡◌, refl, Bool, Option, none, some, List, [], ◌∷◌, leb}
use fort.Base.Int.{pos, negsuc, ◌+ℤ◌, wrap64}
use fort.Execution.Risk.{OrderIntent}
use fort.Execution.Stops.{
  ConditionalOrder, OutboundPacket, stop_limit, pegged_mid, max_triggers, no_trigger,
  stop_order_table, order_price, halved, crossed,
}
use fort.Execution.Stops.Count.{active_below}
use fort.Execution.Stops.Runs.{Call, registering, cancelling, quoting, run, run-accounts}

abbrev sell_stop : ConditionalOrder
sell_stop = record no_trigger {
  symbol_idx = 3;
  side = 1;
  stop_price = pos 100;
  qty = pos 5;
  client_order_id = 7;
}

abbrev buy_limit : ConditionalOrder
buy_limit = record no_trigger {
  symbol_idx = 3;
  trigger_type = stop_limit;
  stop_price = pos 200;
  limit_price = pos 210;
  qty = pos 5;
  client_order_id = 8;
}

abbrev no_packet : OutboundPacket
no_packet = record { len = 0; bytes = λ i. 0 }

-- A gateway that passes the first two orders, and counts them.
abbrev two_orders : ℕ → OrderIntent → OutboundPacket → Bool × OutboundPacket × ℕ
two_orders n intent packet = (leb n 1, record packet { len = 48 }, n + 1)

abbrev packets : Option (ℕ → OutboundPacket)
packets = some (λ i. no_packet)

abbrev calls : List Call
calls =
    registering sell_stop
    ∷ registering buy_limit
    ∷ quoting 3 (pos 99) (pos 101) 10 packets 4
    ∷ cancelling 8
    ∷ []

-- The sell stop is crossed by the bid of 99; the buy stop at 200 is not by the ask of 101.
sell_stop_price : order_price sell_stop (pos 99) (pos 101) ≡ some (pos 99)
unfolding order_price crossed
sell_stop_price = refl

buy_limit_price : order_price buy_limit (pos 99) (pos 200) ≡ some (pos 210)
unfolding order_price crossed
buy_limit_price = refl

buy_limit_waits : order_price buy_limit (pos 99) (pos 101) ≡ none
unfolding order_price crossed
buy_limit_waits = refl

pegged_mid_price :
    order_price
      (record buy_limit { trigger_type = pegged_mid; peg_offset = negsuc 0 })
      (pos 99)
      (pos 102)
    ≡ some (pos 99)
unfolding order_price halved ◌+ℤ◌ wrap64
pegged_mid_price = refl

run-accounts_example :
    let (n, t) = run two_orders stop_order_table 0 calls in
    (t.active_count ≡ active_below max_triggers t.triggers)
    × (t.active_count + n.cancelled + n.routed ≡ n.registered)
run-accounts_example = run-accounts two_orders 0 calls
