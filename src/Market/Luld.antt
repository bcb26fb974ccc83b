-- ===== src/Market/Luld.antt =====
-- LuldEngine of luv_luld.hpp, the limit-up limit-down bands of one symbol. The sums and products of uint64_t
-- wrap as written.
pub mod Pause
pub mod Tests
use fort.Base.{
  ℕ, ◌+◌, ◌-◌, ◌*◌, ◌/◌, ◌%◌, ◌^◌, Bool, true, false, not, ◌&&◌, ◌||◌, ltb, leb, ◌==◌,
  if◌then◌else◌,
}

pub data LuldTier : Type 0 where
  tier_1 tier_2 : LuldTier

pub data LuldState : Type 0 where
  normal straddle limit_state trading_pause : LuldState

pub record LuldConfig : Type 0 where
  pub tier : LuldTier
  pub straddle_timeout_ns : ℕ
  pub is_market_open_or_close_period : Bool

pub record LuldBands : Type 0 where
  pub reference_price : ℕ
  pub lower_band : ℕ
  pub upper_band : ℕ
  pub state : LuldState
  pub straddle_start_ns : ℕ
  pub pause_triggered : Bool

pub record LuldEngine : Type 0 where
  pub config : LuldConfig
  pub bands : LuldBands

abbrev pub luld_engine : LuldConfig → LuldEngine
luld_engine config = record {
  config = config;
  bands = record {
    reference_price = 0;
    lower_band = 0;
    upper_band = 0;
    state = normal;
    straddle_start_ns = 0;
    pause_triggered = false;
  };
}

-- The basis points of a price, before and after the doubling.
unfoldable pub tier_points : LuldTier → ℕ → ℕ
tier_points tier_1 p = if ltb 30000 p then 500 else if leb 7500 p then 2000 else 7500
tier_points tier_2 p = if ltb 30000 p then 1000 else if leb 7500 p then 2000 else 7500

unfoldable pub points : LuldConfig → ℕ → ℕ
unfolding tier_points
points c p =
    if c.is_market_open_or_close_period then tier_points c.tier p * 2 else tier_points c.tier p

unfoldable pub band_delta : LuldConfig → ℕ → ℕ
unfolding points
band_delta c p =
    let delta = p * points c p % 2 ^ 64 / 10000 in
    if leb p 7500 && ltb 1500 delta then 1500 else delta

unfoldable pub recalculate_bands : LuldConfig → LuldBands → LuldBands
unfolding band_delta
recalculate_bands c b =
    let p = b.reference_price in
    let delta = band_delta c p in
    if p == 0 then record b { lower_band = 0; upper_band = 0 } else record b {
      lower_band = if ltb delta p then p - delta else 0;
      upper_band = (p + delta) % 2 ^ 64;
    }

unfoldable pub set_reference_price : LuldEngine → ℕ → LuldEngine
unfolding recalculate_bands
set_reference_price e ref_price = record e {
  bands = recalculate_bands e.config (record e.bands { reference_price = ref_price });
}

abbrev pub bid_at_upper : LuldBands → ℕ → Bool
bid_at_upper b best_bid = leb b.upper_band best_bid

abbrev pub ask_at_lower : LuldBands → ℕ → Bool
ask_at_lower b best_ask = leb best_ask b.lower_band && ltb 0 best_ask

abbrev pub is_paused : LuldState → Bool
is_paused trading_pause = true
is_paused normal = false
is_paused straddle = false
is_paused limit_state = false

-- A state, a time and the timeout: whether the time is up.
abbrev pub timed_out : LuldConfig → LuldBands → ℕ → Bool
timed_out c b now_ns = leb ((b.straddle_start_ns + c.straddle_timeout_ns) % 2 ^ 64) now_ns

abbrev pub pause : LuldBands → LuldBands
pause b = record b { state = trading_pause; pause_triggered = true }

-- The three branches of `update_nbbo`: a side at its band, both inside, and the rest.
unfoldable pub at_band : LuldConfig → LuldBands → ℕ → LuldBands
at_band c b now_ns = elim b.state [
  | normal ↦ record b { state = limit_state; straddle_start_ns = now_ns }
  | trading_pause ↦ record b { state = limit_state; straddle_start_ns = now_ns }
  | straddle ↦ if timed_out c b now_ns then pause b else b
  | limit_state ↦ if timed_out c b now_ns then pause b else b
]

abbrev pub settled : LuldBands → LuldBands
settled b = record b { state = normal; straddle_start_ns = 0 }

unfoldable pub straddling : LuldConfig → LuldBands → ℕ → LuldBands
straddling c b now_ns = elim b.state [
  | normal ↦ record b { state = straddle; straddle_start_ns = now_ns }
  | straddle ↦ if timed_out c b now_ns then pause b else b
  | limit_state ↦ b
  | trading_pause ↦ b
]

unfoldable pub update_bands : LuldConfig → LuldBands → ℕ → ℕ → ℕ → LuldBands
unfolding at_band straddling
update_bands c b best_bid best_ask now_ns =
    if b.reference_price == 0 || is_paused b.state
    then b
    else if bid_at_upper b best_bid || ask_at_lower b best_ask
    then at_band c b now_ns
    else if ltb b.lower_band best_bid && ltb best_ask b.upper_band
    then settled b
    else straddling c b now_ns

unfoldable pub update_nbbo : LuldEngine → ℕ → ℕ → ℕ → LuldEngine
unfolding update_bands
update_nbbo e best_bid best_ask now_ns = record e {
  bands = update_bands e.config e.bands best_bid best_ask now_ns;
}

unfoldable pub is_trade_allowed : LuldEngine → ℕ → Bool
is_trade_allowed e trade_price =
    let b = e.bands in
    if is_paused b.state
    then false
    else if b.reference_price == 0
    then true
    else leb b.lower_band trade_price && leb trade_price b.upper_band

unfoldable pub resume_trading : LuldEngine → ℕ → LuldEngine
unfolding set_reference_price
resume_trading e new_ref_price =
    set_reference_price
      (record e {
        bands = record e.bands { state = normal; pause_triggered = false; straddle_start_ns = 0 };
      })
      new_ref_price
