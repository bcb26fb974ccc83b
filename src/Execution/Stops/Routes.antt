-- ===== src/Execution/Stops/Routes.antt =====
-- What evaluate_bbo of luv_execution.hpp leaves behind when nothing stops it: no trigger that fires,
-- but those that the gateway refused.
use fort.Base.{ℕ, ◌≡◌, ◌⊎◌, Bool, false, not, ◌||◌, none, some, ◌==◌, if◌then◌else◌, List, [], ◌∷◌}
use fort.Base.Int.{ℤ, pos, ltb_ℤ}
use fort.Execution.Risk.{OrderIntent}
use fort.Execution.Stops.{ConditionalOrder, OutboundPacket, Scan, order_price, intent_of}

-- An active trigger of the symbol whose order has a positive price.
pub fires : ℕ → ℤ → ℤ → ConditionalOrder → Bool
fires symbol best_bid best_ask o =
    if o.active == 0 || not (o.symbol_idx == symbol)
    then false
    else elim (order_price o best_bid best_ask) [ none ↦ false | some price ↦ ltb_ℤ (pos 0) price ]

-- The gateway with a log of the orders that it refuses, the last first.
abbrev pub logged :
    {G : Type 0}
    → (G → OrderIntent → OutboundPacket → Bool × OutboundPacket × G)
    → G × List OrderIntent
    → OrderIntent
    → OutboundPacket
    → Bool × OutboundPacket × (G × List OrderIntent)
logged try_build (g, refused) intent packet =
    let (pass, packet', g') = try_build g intent packet in
    (pass, packet', (g', if pass then refused else intent ∷ refused))

abbrev pub Refused : OrderIntent → List OrderIntent → Type 0
Refused intent [] = ⊥
Refused intent (i ∷ is) = (intent ≡ i) ⊎ Refused intent is

module _ (symbol : ℕ) (best_bid best_ask : ℤ) (now : ℕ) where
  -- A trigger that does not fire, or whose order the gateway refused.
  abbrev pub Settled : ConditionalOrder → List OrderIntent → Type 0
  Settled o refused =
      (fires symbol best_bid best_ask o ≡ false)
      ⊎ ((price : ℤ) × (order_price o best_bid best_ask ≡ some price)
          × Refused (intent_of o price now) refused)

module _ {G : Type 0} (try_build : G → OrderIntent → OutboundPacket → Bool × OutboundPacket × G)
    (max_packets symbol : ℕ) (best_bid best_ask : ℤ) (now : ℕ) where
  -- Whether trigger `j` is settled while the scan runs.
  abbrev SettledAt : Scan (G × List OrderIntent) → ℕ → Type 0
  SettledAt s j = Settled symbol best_bid best_ask now (s.table.triggers j) s.gateway.1

  -- The scan without the log.
  abbrev forget : Scan (G × List OrderIntent) → Scan G
  forget s = record {
    routed = s.routed;
    gateway = s.gateway.0;
    packets = s.packets;
    table = s.table;
  }
