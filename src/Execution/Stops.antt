-- ===== src/Execution/Stops.antt =====
-- StopOrderTable of luv_execution.hpp, with its default of 1024 triggers. The gateway is a parameter: its
-- state, and `try_build`, which writes a packet. Sums of prices
-- wrap as int64_t.
pub mod Count
pub mod Runs
pub mod Routes
pub mod Tests
use fort.Base.{
  ℕ, zero, suc, ◌+◌, ◌-◌, ◌/◌, ◌%◌, ◌^◌, Bool, true, false, not, ◌&&◌, ◌||◌, Option, none, some,
  ltb, leb, ◌==◌, if◌then◌else◌, update,
}
use fort.Base.Int.{ℤ, pos, negsuc, ◌+ℤ◌, ◌-ℤ◌, wrap64, ltb_ℤ, leb_ℤ}
use fort.Lob.RefMap.{symbols}
use fort.Execution.Risk.{OrderIntent}

pub data TriggerType : Type 0 where
  stop_loss stop_limit pegged_bid pegged_ask pegged_mid : TriggerType

pub record ConditionalOrder : Type 0 where
  pub trigger_id : ℕ
  pub symbol_idx : ℕ
  pub side : ℕ
  pub trigger_type : TriggerType
  pub stop_price : ℤ
  pub limit_price : ℤ
  pub peg_offset : ℤ
  pub qty : ℤ
  pub client_order_id : ℕ
  pub time_in_force : ℕ
  pub active : ℕ

pub record OutboundPacket : Type 0 where
  pub len : ℕ
  pub bytes : ℕ → ℕ

pub record StopOrderTable : Type 0 where
  pub triggers : ℕ → ConditionalOrder
  pub active_count : ℕ

abbrev pub max_triggers : ℕ
max_triggers = 1_024

abbrev pub no_trigger : ConditionalOrder
no_trigger = record {
  trigger_id = 0;
  symbol_idx = 0;
  side = 0;
  trigger_type = stop_loss;
  stop_price = pos 0;
  limit_price = pos 0;
  peg_offset = pos 0;
  qty = pos 0;
  client_order_id = 0;
  time_in_force = 0;
  active = 0;
}

abbrev pub stop_order_table : StopOrderTable
stop_order_table = record { triggers = λ i. no_trigger; active_count = 0 }

-- The scan of `register_trigger` from trigger `i` on.
unfoldable pub free_trigger : ℕ → ℕ → (ℕ → ConditionalOrder) → Option ℕ
free_trigger zero i triggers = none
free_trigger (suc n) i triggers =
    let rest = free_trigger n (i + 1) triggers in if (triggers i).active == 0 then some i else rest

unfoldable pub register_trigger : StopOrderTable → ConditionalOrder → Bool × StopOrderTable
register_trigger t order =
    if order.client_order_id == 0 || leb_ℤ order.qty (pos 0) || leb symbols order.symbol_idx
    then (false, t)
    else elim (free_trigger max_triggers 0 t.triggers) [
      | none ↦ (false, t)
      | some i ↦ (
        true,
        record {
          triggers = update t.triggers i (record order { active = 1; trigger_id = i + 1 });
          active_count = (t.active_count + 1) % 2 ^ 64;
        },
      )
    ]

-- The scan of `cancel_trigger` from trigger `i` on.
unfoldable pub find_trigger : ℕ → ℕ → (ℕ → ConditionalOrder) → ℕ → Option ℕ
find_trigger zero i triggers id = none
find_trigger (suc n) i triggers id =
    let rest = find_trigger n (i + 1) triggers id in
    if not ((triggers i).active == 0) && (triggers i).client_order_id == id then some i else rest

unfoldable pub deactivate : StopOrderTable → ℕ → StopOrderTable
deactivate t i = record {
  triggers = update t.triggers i (record (t.triggers i) { active = 0 });
  active_count = if ltb 0 t.active_count then t.active_count - 1 else t.active_count;
}

unfoldable pub cancel_trigger : StopOrderTable → ℕ → Bool × StopOrderTable
cancel_trigger t id =
    if id == 0 then (false, t) else elim (find_trigger max_triggers 0 t.triggers id) [
      | none ↦ (false, t)
      | some i ↦ (true, deactivate t i)
    ]

-- A stop is crossed: the price on the side that the order takes from.
pub crossed : ConditionalOrder → ℤ → ℤ → Option ℤ
crossed o best_bid best_ask =
    if o.side == 0 && ltb_ℤ (pos 0) best_ask && leb_ℤ o.stop_price best_ask
    then some best_ask
    else if o.side == 1 && ltb_ℤ (pos 0) best_bid && leb_ℤ best_bid o.stop_price
    then some best_bid
    else none

-- Division by 2, which rounds towards 0.
pub halved : ℤ → ℤ
halved (pos n) = pos (n / 2)
halved (negsuc n) = pos 0 -ℤ pos ((n + 1) / 2)

-- The price of the order, if the trigger fires.
pub order_price : ConditionalOrder → ℤ → ℤ → Option ℤ
order_price o best_bid best_ask = elim o.trigger_type [
  | stop_loss ↦ crossed o best_bid best_ask
  | stop_limit ↦ elim (crossed o best_bid best_ask) [
    | none ↦ none
    | some price ↦ some (if ltb_ℤ (pos 0) o.limit_price then o.limit_price else price)
  ]
  | pegged_bid ↦ if ltb_ℤ (pos 0) best_bid then some (wrap64 (best_bid +ℤ o.peg_offset)) else none
  | pegged_ask ↦ if ltb_ℤ (pos 0) best_ask then some (wrap64 (best_ask +ℤ o.peg_offset)) else none
  | pegged_mid ↦
      if ltb_ℤ (pos 0) best_bid && ltb_ℤ (pos 0) best_ask
      then some (wrap64 (halved (wrap64 (best_bid +ℤ best_ask)) +ℤ o.peg_offset))
      else none
]

abbrev pub intent_of : ConditionalOrder → ℤ → ℕ → OrderIntent
intent_of o price now = record {
  symbol_idx = o.symbol_idx;
  side = o.side;
  qty = o.qty;
  price = price;
  alpha_timestamp_ns = now;
  now_ns = now;
  client_order_id = o.client_order_id;
  time_in_force = o.time_in_force;
}

-- The gateway, the packets and the table while `evaluate_bbo` runs.
pub record Scan (G : Type 0) : Type 0 where
  pub routed : ℕ
  pub gateway : G
  pub packets : ℕ → OutboundPacket
  pub table : StopOrderTable

module _ {G : Type 0}
    (try_build : G → OrderIntent → OutboundPacket → Bool × OutboundPacket × G) where
  -- An order for the gateway, from trigger `i`.
  unfoldable pub route : ℕ → OrderIntent → Scan G → Scan G
  route i intent s =
      let (pass, packet, gateway) = try_build s.gateway intent (s.packets s.routed) in
      let s' = record s { gateway = gateway; packets = update s.packets s.routed packet } in
      if pass then record s' { routed = s.routed + 1; table = deactivate s.table i } else s'

  -- One turn of the loop.
  unfoldable pub visit : ℕ → ℤ → ℤ → ℕ → ℕ → Scan G → Scan G
  visit symbol best_bid best_ask now i s =
      let o = s.table.triggers i in
      if o.active == 0 || not (o.symbol_idx == symbol)
      then s
      else elim (order_price o best_bid best_ask) [
        | none ↦ s
        | some price ↦ if ltb_ℤ (pos 0) price then route i (intent_of o price now) s else s
      ]

  -- The loop, from trigger `i` on, while there is room for a packet.
  unfoldable pub visit_from : ℕ → ℕ → ℤ → ℤ → ℕ → ℕ → ℕ → Scan G → Scan G
  visit_from max_packets symbol best_bid best_ask now zero i s = s
  visit_from max_packets symbol best_bid best_ask now (suc n) i s =
      let rest =
        visit_from max_packets symbol best_bid best_ask now n (i + 1)
          (visit symbol best_bid best_ask now i s) in
      if ltb s.routed max_packets then rest else s

  -- The packets are the caller's array; none is a null pointer.
  unfoldable pub evaluate_bbo :
      StopOrderTable
      → ℕ
      → ℤ
      → ℤ
      → ℕ
      → G
      → Option (ℕ → OutboundPacket)
      → ℕ
      → ℕ × G × Option (ℕ → OutboundPacket) × StopOrderTable
  evaluate_bbo t symbol best_bid best_ask now gateway none max_packets = (0, gateway, none, t)
  evaluate_bbo t symbol best_bid best_ask now gateway (some packets) max_packets =
      let s =
        visit_from max_packets symbol best_bid best_ask now max_triggers 0
          (record { routed = 0; gateway = gateway; packets = packets; table = t }) in
      if leb symbols symbol || t.active_count == 0 || max_packets == 0
      then (0, gateway, some packets, t)
      else (s.routed, s.gateway, some s.packets, s.table)
