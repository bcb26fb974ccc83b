-- ===== src/Execution/Tests.antt =====
-- An order of luv_execution.hpp that passes, is reserved, and is released.
use fort.Base.{ℕ, ◌+◌, ◌*◌, ◌≤◌, ◌<◌, ◌≡◌, ◌⊎◌, refl, true, none, arith}
use fort.Base.Int.{pos, ◌+ℤ◌, ◌-ℤ◌, ◌*ℤ◌, ◌≤ℤ◌, ◌<ℤ◌, FitsInt64}
use fort.Numeric.{is_valid_price, is_valid_quantity, max_price}
use fort.Lob.RefMap.{symbols}
use fort.Execution.Risk.{
  RiskLimits, OrderIntent, RiskState, PreTradeRisk, default_limits, is_valid, evaluate,
  evaluate_with, valid_qty, safe_qty, projected, valid_pos, valid_alpha, valid_price, collar_ok,
  loss_ok, valid_notional, signed_qty_delta, abs_i64, to_u64,
}
use fort.Execution.Limits.{IsWithin, evaluate-IsWithin}
use fort.Execution.Reserve.{
  SymbolExecState, no_order, reserve_order_slot, free_from, release_order_slot, find_order,
  max_active_orders,
}
use fort.Execution.Roundtrip.{reserve_order_slot-IsWithin, release-reserve}

abbrev limits : RiskLimits
limits = record default_limits { reference_price = pos 1000 }

abbrev gateway : PreTradeRisk
gateway = record { ready = true; limits = λ s. limits }

abbrev flat : RiskState
flat = record {
  net_position = pos 0;
  gross_exposure = pos 0;
  current_drawdown = pos 0;
  order_count = 0;
  reject_count = 0;
  halted = 0;
}

abbrev sell : OrderIntent
sell = record {
  symbol_idx = 7;
  side = 1;
  qty = pos 50;
  price = pos 1010;
  alpha_timestamp_ns = 900;
  now_ns = 1000;
  client_order_id = 42;
  time_in_force = 0;
}

limits_valid : is_valid limits ≡ true
unfolding is_valid is_valid_price is_valid_quantity
limits_valid = refl

sell_passes : (evaluate gateway (λ s. flat) sell).pass ≡ true
unfolding evaluate evaluate_with valid_qty safe_qty projected valid_pos valid_alpha valid_price
    collar_ok loss_ok valid_notional signed_qty_delta abs_i64 to_u64 ◌+ℤ◌ ◌-ℤ◌ ◌*ℤ◌
sell_passes = refl

evaluate-IsWithin_example :
    (7 < symbols)
    × IsWithin limits flat sell
    × ((pos 1000 ≡ pos 0)
        ⊎ (max_price <ℤ pos 1000)
        ⊎ (pos 10 ≡ pos 0)
        ⊎ (100 * abs_i64 (pos 1010 -ℤ pos 1000) ≤ to_u64 (pos 1000) * to_u64 (pos 10)))
evaluate-IsWithin_example = evaluate-IsWithin gateway (λ s. flat) sell limits_valid sell_passes

abbrev idle : SymbolExecState
idle = record { orders = λ j. no_order; risk = flat }

sell_passes_with : (evaluate_with limits flat sell).pass ≡ true
unfolding evaluate_with valid_qty safe_qty projected valid_pos valid_alpha valid_price collar_ok
    loss_ok valid_notional signed_qty_delta abs_i64 to_u64 ◌+ℤ◌ ◌-ℤ◌ ◌*ℤ◌
sell_passes_with = refl

sell_reserved : (reserve_order_slot idle sell).0 ≡ true
unfolding reserve_order_slot free_from
sell_reserved = refl

sell_unknown : find_order max_active_orders 0 idle.orders 42 ≡ none
unfolding find_order
sell_unknown = refl

reserve_order_slot-IsWithin_example :
    let risk = (reserve_order_slot idle sell).1.risk in
    (risk.net_position ≤ℤ pos 100_000)
    × (pos 0 ≤ℤ risk.net_position +ℤ pos 100_000)
    × FitsInt64 risk.gross_exposure
    × (risk.order_count ≡ 0 + 1)
    × (risk.order_count ≤ 64)
reserve_order_slot-IsWithin_example =
    reserve_order_slot-IsWithin limits idle sell limits_valid sell_passes_with sell_reserved

release-reserve_example :
    let s = release_order_slot (reserve_order_slot idle sell).1 sell in
    (s.risk ≡ flat)
    × ((j : ℕ)
        → (s.orders j ≡ no_order)
          ⊎ ((◌≡◌ {A = ℕ} 0 0) ⊎ (◌≡◌ {A = ℕ} 0 3)) × (s.orders j ≡ no_order))
release-reserve_example =
    release-reserve limits idle sell limits_valid sell_passes_with (omega arith) (omega arith)
      sell_unknown sell_reserved
