-- ===== src/Stp/Tests.antt =====
-- Self-trades and the protection of luv_stp.hpp at concrete orders and trades.
use fort.Base.{ℕ, ◌≡◌, ◌≢◌, ◌↔◌, ◌⊎◌, true, false, [], arith}
use fort.Base.Int.{pos, ◌+ℤ◌}
use fort.Stp.SelfTrade.{evaluate, decrement_and_cancel, evaluate_resolves, StpResolution}
use fort.Stp.Protection.{MarketMakerProtection, Trade, Window}

abbrev decremented : StpResolution
decremented = evaluate 7 7 decrement_and_cancel (pos 30) (pos 20)

evaluate_resolves_example :
    ((decremented.self_trade_detected ≡ true)
      ↔ ((◌≢◌ {A = ℕ} 7 0) × (◌≡◌ {A = ℕ} 7 7) × (false ≡ false)))
    × (decremented.self_trade_detected ≡ true
        → (decremented.cancel_incoming ≡ true) ⊎ (decremented.cancel_resting ≡ true))
    × ((decremented.cancel_incoming ≡ true) ↔ (decremented.adjusted_incoming_qty ≡ pos 0))
    × ((decremented.cancel_resting ≡ true) ↔ (decremented.adjusted_resting_qty ≡ pos 0))
    × (decremented.self_trade_detected ≡ true
        → (decremented.adjusted_incoming_qty +ℤ pos 20 ≡ pos 30)
          × (decremented.adjusted_resting_qty +ℤ pos 20 ≡ pos 20))
    × (decremented.self_trade_detected ≡ false
        → (decremented.adjusted_incoming_qty ≡ pos 30)
          × (decremented.adjusted_resting_qty ≡ pos 20))
evaluate_resolves_example =
    evaluate_resolves 7 7 decrement_and_cancel (pos 30) (pos 20) (omega arith) (omega arith)

abbrev maker : MarketMakerProtection
maker = record {
  config = record {
    window_ns = 500;
    max_traded_volume = pos 100;
    max_traded_notional = pos 5000;
    max_delta_volume = pos 50;
  };
  tripped = false;
  trip_ts_ns = 0;
  window_start_ts_ns = 0;
  volume_in_window = pos 0;
  notional_in_window = pos 0;
  delta_in_window = pos 0;
}

abbrev opening : Window
opening = record { start = 0; trades = [] }

abbrev sale : Trade
sale = record { ts_ns = 100; side = 1; qty = pos 60; price = pos 10 }
