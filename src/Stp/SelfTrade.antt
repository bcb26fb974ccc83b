-- ===== src/Stp/SelfTrade.antt =====
-- SelfTradePreventionEngine of luv_stp.hpp. Firm ids are uint32_t, quantities int64_t.
use fort.Base.{ℕ, ◌≡◌, ◌≢◌, ◌↔◌, ◌⊎◌, Bool, true, false, not, ◌||◌, arith, ◌==◌, if◌then◌else◌}
use fort.Base.Int.{
  ℤ, pos, ◌+ℤ◌, ◌-ℤ◌, ◌<ℤ◌, ltb_ℤ, eqb_ℤ, eq_of_parts, -ℤ_parts, minus_plus, zero_+ℤ, +ℤ_zero,
}

pub data StpMode : Type 0 where
  none_mode cancel_newest cancel_oldest cancel_both decrement_and_cancel : StpMode

pub record StpResolution : Type 0 where
  pub self_trade_detected : Bool
  pub cancel_incoming : Bool
  pub cancel_resting : Bool
  pub adjusted_incoming_qty : ℤ
  pub adjusted_resting_qty : ℤ

abbrev is_none : StpMode → Bool
is_none none_mode = true
is_none _ = false

-- The switch on the mode, for two orders of one firm.
unfoldable pub resolve : StpMode → ℤ → ℤ → StpResolution
resolve none_mode incoming resting = record {
  self_trade_detected = true;
  cancel_incoming = false;
  cancel_resting = false;
  adjusted_incoming_qty = pos 0;
  adjusted_resting_qty = pos 0;
}
resolve cancel_newest incoming resting = record {
  self_trade_detected = true;
  cancel_incoming = true;
  cancel_resting = false;
  adjusted_incoming_qty = pos 0;
  adjusted_resting_qty = resting;
}
resolve cancel_oldest incoming resting = record {
  self_trade_detected = true;
  cancel_incoming = false;
  cancel_resting = true;
  adjusted_incoming_qty = incoming;
  adjusted_resting_qty = pos 0;
}
resolve cancel_both incoming resting = record {
  self_trade_detected = true;
  cancel_incoming = true;
  cancel_resting = true;
  adjusted_incoming_qty = pos 0;
  adjusted_resting_qty = pos 0;
}
resolve decrement_and_cancel incoming resting =
    if eqb_ℤ incoming resting
    then record {
      self_trade_detected = true;
      cancel_incoming = true;
      cancel_resting = true;
      adjusted_incoming_qty = pos 0;
      adjusted_resting_qty = pos 0;
    }
    else if ltb_ℤ resting incoming
    then record {
      self_trade_detected = true;
      cancel_incoming = false;
      cancel_resting = true;
      adjusted_incoming_qty = incoming -ℤ resting;
      adjusted_resting_qty = pos 0;
    }
    else record {
      self_trade_detected = true;
      cancel_incoming = true;
      cancel_resting = false;
      adjusted_incoming_qty = pos 0;
      adjusted_resting_qty = resting -ℤ incoming;
    }

unfoldable pub evaluate : ℕ → ℕ → StpMode → ℤ → ℤ → StpResolution
evaluate incoming_firm resting_firm mode incoming resting =
    if incoming_firm == 0
      || resting_firm == 0
      || not (incoming_firm == resting_firm)
      || is_none mode
    then record {
      self_trade_detected = false;
      cancel_incoming = false;
      cancel_resting = false;
      adjusted_incoming_qty = incoming;
      adjusted_resting_qty = resting;
    }
    else resolve mode incoming resting

-- What a mode takes off the incoming order, which is the newest, and off the resting order, the oldest.
abbrev pub taken_incoming : StpMode → ℤ → ℤ → ℤ
taken_incoming none_mode incoming resting = pos 0
taken_incoming cancel_newest incoming resting = incoming
taken_incoming cancel_oldest incoming resting = pos 0
taken_incoming cancel_both incoming resting = incoming
taken_incoming decrement_and_cancel incoming resting =
    if ltb_ℤ resting incoming then resting else incoming

abbrev pub taken_resting : StpMode → ℤ → ℤ → ℤ
taken_resting none_mode incoming resting = pos 0
taken_resting cancel_newest incoming resting = pos 0
taken_resting cancel_oldest incoming resting = resting
taken_resting cancel_both incoming resting = resting
taken_resting decrement_and_cancel incoming resting =
    if ltb_ℤ resting incoming then resting else incoming

-- For two orders with positive quantities: a self-trade is detected exactly for two orders of one
-- known firm under a mode; then at least one of the two is cancelled, and each order loses what the mode
-- takes: all of the incoming order, all of the resting order, all of both, or the smaller quantity of both;
-- an order is cancelled exactly if nothing is left of it. Without a self-trade both quantities stay.
pub evaluate_resolves :
    (incoming_firm resting_firm : ℕ) (mode : StpMode) (incoming resting : ℤ)
    → pos 0 <ℤ incoming
    → pos 0 <ℤ resting
    → let r = evaluate incoming_firm resting_firm mode incoming resting in
      ((r.self_trade_detected ≡ true)
        ↔ ((incoming_firm ≢ 0) × (incoming_firm ≡ resting_firm) × (is_none mode ≡ false)))
      × (r.self_trade_detected ≡ true → (r.cancel_incoming ≡ true) ⊎ (r.cancel_resting ≡ true))
      × ((r.cancel_incoming ≡ true) ↔ (r.adjusted_incoming_qty ≡ pos 0))
      × ((r.cancel_resting ≡ true) ↔ (r.adjusted_resting_qty ≡ pos 0))
      × (r.self_trade_detected ≡ true
          → (r.adjusted_incoming_qty +ℤ taken_incoming mode incoming resting ≡ incoming)
            × (r.adjusted_resting_qty +ℤ taken_resting mode incoming resting ≡ resting))
      × (r.self_trade_detected ≡ false
          → (r.adjusted_incoming_qty ≡ incoming) × (r.adjusted_resting_qty ≡ resting))
unfolding evaluate resolve
evaluate_resolves f g none_mode incoming resting a b = ground arith
evaluate_resolves f g cancel_newest incoming resting a b =
    ground (arith, zero_+ℤ incoming, +ℤ_zero resting)
evaluate_resolves f g cancel_oldest incoming resting a b =
    ground (arith, zero_+ℤ resting, +ℤ_zero incoming)
evaluate_resolves f g cancel_both incoming resting a b =
    ground (arith, zero_+ℤ incoming, zero_+ℤ resting)
evaluate_resolves f g decrement_and_cancel incoming resting a b = ground (
  arith,
  -ℤ_parts incoming resting,
  -ℤ_parts resting incoming,
  eq_of_parts incoming resting,
  minus_plus incoming resting,
  minus_plus resting incoming,
  zero_+ℤ incoming,
  zero_+ℤ resting,
)

-- Under decrement-and-cancel both orders of a self-trade lose the smaller of the two quantities.
pub evaluate-decrement :
    (firm : ℕ) (incoming resting : ℤ)
    → firm ≢ 0
    → pos 0 <ℤ incoming
    → pos 0 <ℤ resting
    → let r = evaluate firm firm decrement_and_cancel incoming resting in
      let smaller = if ltb_ℤ resting incoming then resting else incoming in
      (r.adjusted_incoming_qty +ℤ smaller ≡ incoming)
      × (r.adjusted_resting_qty +ℤ smaller ≡ resting)
unfolding evaluate resolve
evaluate-decrement firm incoming resting known a b = ground (
  arith,
  minus_plus incoming resting,
  minus_plus resting incoming,
  eq_of_parts incoming resting,
  zero_+ℤ incoming,
  zero_+ℤ resting,
)
