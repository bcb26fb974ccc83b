-- ===== src/Execution/Stops/Runs.antt =====
-- Any calls of StopOrderTable in luv_execution.hpp, with any gateway: what becomes of the triggers.
use fort.Base.{ℕ, ◌+◌, ◌≡◌, Bool, Option, List, [], ◌∷◌, arith, if◌then◌else◌}
use fort.Base.Int.{ℤ}
use fort.Execution.Risk.{OrderIntent}
use fort.Execution.Stops.{
  ConditionalOrder, OutboundPacket, StopOrderTable, max_triggers, stop_order_table,
  register_trigger, cancel_trigger, evaluate_bbo,
}
use fort.Execution.Stops.Count.{
  active_below, active_below-empty, IsTable, register_trigger-IsTable, cancel_trigger-IsTable,
  evaluate_bbo-IsTable,
}

pub data Call : Type 0 where
  registering : ConditionalOrder → Call
  cancelling : ℕ → Call
  quoting : ℕ → ℤ → ℤ → ℕ → Option (ℕ → OutboundPacket) → ℕ → Call

-- How many triggers the calls registered, cancelled and routed.
pub record Totals : Type 0 where
  pub registered : ℕ
  pub cancelled : ℕ
  pub routed : ℕ

module _ {G : Type 0}
    (try_build : G → OrderIntent → OutboundPacket → Bool × OutboundPacket × G) where
  unfoldable pub run : StopOrderTable → G → List Call → Totals × StopOrderTable
  run t g [] = (record { registered = 0; cancelled = 0; routed = 0 }, t)
  run t g (registering order ∷ cs) =
      let (ok, t') = register_trigger t order in
      let (n, t'') = run t' g cs in
      (record n { registered = n.registered + (if ok then 1 else 0) }, t'')
  run t g (cancelling id ∷ cs) =
      let (ok, t') = cancel_trigger t id in
      let (n, t'') = run t' g cs in
      (record n { cancelled = n.cancelled + (if ok then 1 else 0) }, t'')
  run t g (quoting symbol best_bid best_ask now packets max_packets ∷ cs) =
      let (k, g', _, t') =
        evaluate_bbo try_build t symbol best_bid best_ask now g packets max_packets in
      let (n, t'') = run t' g' cs in (record n { routed = n.routed + k }, t'')

  run-IsTable :
      (t : StopOrderTable) (g : G) (cs : List Call)
      → IsTable t
      → let (n, t') = run t g cs in
        IsTable t' × (t'.active_count + n.cancelled + n.routed ≡ t.active_count + n.registered)
  unfolding run
  run-IsTable t g [] v = (v, omega arith)
  run-IsTable t g (registering order ∷ cs) v =
      let (v', c) = register_trigger-IsTable t order v in
      let (w, d) = run-IsTable (register_trigger t order).1 g cs v' in (w, omega (arith, c, d))
  run-IsTable t g (cancelling id ∷ cs) v =
      let (v', c) = cancel_trigger-IsTable t id v in
      let (w, d) = run-IsTable (cancel_trigger t id).1 g cs v' in (w, omega (arith, c, d))
  run-IsTable t g (quoting symbol best_bid best_ask now packets max_packets ∷ cs) v =
      let r = evaluate_bbo try_build t symbol best_bid best_ask now g packets max_packets in
      let (v', small, c) =
        evaluate_bbo-IsTable try_build t symbol best_bid best_ask now g packets max_packets v in
      let (w, d) = run-IsTable r.3 r.1 cs v' in (w, omega (arith, c, d))

  -- After any calls from the empty table, whatever the gateway does: the count is that of the active
  -- triggers, and the registered triggers are as many as the active, the cancelled and the routed.
  pub run-accounts :
      (g : G) (cs : List Call)
      → let (n, t) = run stop_order_table g cs in
        (t.active_count ≡ active_below max_triggers t.triggers)
        × (t.active_count + n.cancelled + n.routed ≡ n.registered)
  run-accounts g cs =
      let start : IsTable stop_order_table = record {
        counted = omega (arith, active_below-empty max_triggers);
      } in
      let (v, c) = run-IsTable stop_order_table g cs start in (v.counted, omega (arith, c))
