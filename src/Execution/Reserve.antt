-- ===== src/Execution/Reserve.antt =====
-- The reservations of ExecutionGateway in luv_execution.hpp, on the state of one symbol: RiskState and the
-- 64 order slots of luv_arena.hpp. Positions and exposures
-- are int64_t; where the source does not check for an overflow, the result is wrapped (`wrap64`).
use fort.Base.{
  ℕ, zero, suc, ◌+◌, ◌-◌, ◌%◌, ◌^◌, Bool, true, false, ◌||◌, Option, none, some, ltb, leb, ◌==◌,
  if◌then◌else◌, update,
}
use fort.Base.Int.{ℤ, pos, ◌+ℤ◌, ◌-ℤ◌, ◌*ℤ◌, wrap64}
use fort.Numeric.{checked_sub, checked_mul}
use fort.Execution.Risk.{RiskState, OrderIntent, signed_qty_delta}

-- `state` is 0 for a free slot and 3 for a terminal order.
pub record ActiveOrder : Type 0 where
  pub order_id : ℕ
  pub price : ℤ
  pub qty : ℤ
  pub filled_qty : ℤ
  pub symbol_idx : ℕ
  pub side : ℕ
  pub state : ℕ
  pub time_in_force : ℕ

abbrev pub no_order : ActiveOrder
no_order = record {
  order_id = 0;
  price = pos 0;
  qty = pos 0;
  filled_qty = pos 0;
  symbol_idx = 0;
  side = 0;
  state = 0;
  time_in_force = 0;
}

pub record SymbolExecState : Type 0 where
  pub orders : ℕ → ActiveOrder
  pub risk : RiskState

abbrev pub max_active_orders : ℕ
max_active_orders = 64

-- The scan of `reserve_order_slot` from slot `i` on.
unfoldable pub free_from : ℕ → ℕ → (ℕ → ActiveOrder) → Option ℕ
free_from zero i orders = none
free_from (suc n) i orders =
    let rest = free_from n (i + 1) orders in
    if (orders i).state == 0 || (orders i).state == 3 then some i else rest

unfoldable pub reserve_in : SymbolExecState → OrderIntent → ℕ → SymbolExecState
reserve_in s i slot = record {
  orders = update s.orders slot (record {
    order_id = i.client_order_id;
    price = i.price;
    qty = i.qty;
    filled_qty = pos 0;
    symbol_idx = i.symbol_idx;
    side = i.side % 2;
    state = 1;
    time_in_force = i.time_in_force;
  });
  risk = record s.risk {
    net_position = wrap64 (s.risk.net_position +ℤ signed_qty_delta i.side i.qty);
    gross_exposure = wrap64 (s.risk.gross_exposure +ℤ wrap64 (i.price *ℤ i.qty));
    order_count = (s.risk.order_count + 1) % 2 ^ 32;
  };
}

unfoldable pub reserve_order_slot : SymbolExecState → OrderIntent → Bool × SymbolExecState
reserve_order_slot s i =
    if leb max_active_orders s.risk.order_count
    then (
      false,
      record s {
        risk = record s.risk { halted = 1; reject_count = (s.risk.reject_count + 1) % 2 ^ 32 };
      },
    )
    else elim (free_from max_active_orders 0 s.orders) [
      | none ↦ (false, s)
      | some slot ↦ (true, reserve_in s i slot)
    ]

-- `next_gross`, if neither the product nor the difference overflows.
abbrev pub released_gross : ℤ → ℤ → ℤ → Option ℤ
released_gross gross price qty = elim (checked_mul price qty) [
  | none ↦ none
  | some released ↦ checked_sub gross released
]

unfoldable pub release_reservation : RiskState → ℕ → ℤ → ℤ → RiskState
release_reservation risk side qty price =
    let delta = signed_qty_delta side qty in
    record risk {
      net_position = elim (checked_sub risk.net_position delta) [
        | some next ↦ next
        | none ↦ wrap64 (risk.net_position -ℤ delta)
      ];
      gross_exposure = elim (released_gross risk.gross_exposure price qty) [
        | some next ↦ next
        | none ↦ wrap64 (risk.gross_exposure -ℤ wrap64 (price *ℤ qty))
      ];
    }

-- The scan of `release_order_slot` for the order.
unfoldable pub find_order : ℕ → ℕ → (ℕ → ActiveOrder) → ℕ → Option ℕ
find_order zero i orders id = none
find_order (suc n) i orders id =
    let rest = find_order n (i + 1) orders id in if (orders i).order_id == id then some i else rest

unfoldable pub release_order_slot : SymbolExecState → OrderIntent → SymbolExecState
release_order_slot s i = elim (find_order max_active_orders 0 s.orders i.client_order_id) [
  | none ↦ s
  | some slot ↦
      let risk = record s.risk {
        order_count =
            if ltb 0 s.risk.order_count then s.risk.order_count - 1 else s.risk.order_count;
      } in
      record {
        orders = update s.orders slot no_order;
        risk = release_reservation risk i.side i.qty i.price;
      }
]
