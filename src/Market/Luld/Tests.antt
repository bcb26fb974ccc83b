-- ===== src/Market/Luld/Tests.antt =====
-- Runs of LuldEngine in luv_luld.hpp.
use fort.Base.{ℕ, ◌≡◌, refl, true, false, List, [], ◌∷◌, arith}
use fort.Market.Luld.{
  LuldConfig, LuldEngine, tier_1, limit_state, luld_engine, set_reference_price, recalculate_bands,
  band_delta, points, tier_points, update_nbbo, update_bands, at_band, straddling, is_trade_allowed,
  resume_trading,
}
use fort.Market.Luld.Pause.{Quote, watch, TimedOut, watch-TimedOut}

abbrev config : LuldConfig
config = record {
  tier = tier_1;
  straddle_timeout_ns = 15_000_000_000;
  is_market_open_or_close_period = false;
}

-- A price of 10, whose bands are 9.50 and 10.50.
abbrev trading : LuldEngine
trading = set_reference_price (luld_engine config) 100_000

bands_5_percent : (trading.bands.lower_band ≡ 95_000) × (trading.bands.upper_band ≡ 105_000)
unfolding set_reference_price recalculate_bands band_delta points tier_points
bands_5_percent = (refl, refl)

-- At the open a price of 0.75 has twice 20 %, and the bound of 0.15 applies to it.
bands_at_open :
    let e =
      set_reference_price
        (luld_engine (record config { is_market_open_or_close_period = true }))
        7500 in
    (e.bands.lower_band ≡ 6000) × (e.bands.upper_band ≡ 9000)
unfolding set_reference_price recalculate_bands band_delta points tier_points
bands_at_open = (refl, refl)

abbrev quote : ℕ → ℕ → ℕ → Quote
quote bid ask now = record { best_bid = bid; best_ask = ask; now_ns = now }

-- The bid is at the upper band for the timeout, the newest quote first.
abbrev quotes : List Quote
quotes =
    quote 105_000 106_000 17_000_000_000
    ∷ quote 105_500 106_000 2_000_000_000
    ∷ quote 99_000 101_000 1
    ∷ []

watch-TimedOut_example : TimedOut trading.bands 15_000_000_000 quotes
unfolding set_reference_price recalculate_bands band_delta points tier_points watch update_nbbo
    update_bands at_band
watch-TimedOut_example = watch-TimedOut trading quotes (omega arith) refl refl

no_trade : is_trade_allowed (watch trading quotes) 100_000 ≡ false
unfolding is_trade_allowed set_reference_price recalculate_bands band_delta points tier_points watch
    update_nbbo update_bands at_band
no_trade = refl

-- In the limit state quotes that straddle a band do not pause trading, however long they last.
straddles_in_limit :
    (watch trading (
      quote 94_000 100_000 900_000_000_000
      ∷ quote 94_000 100_000 3
      ∷ quote 105_000 106_000 2
      ∷ [])).bands.state
    ≡ limit_state
unfolding set_reference_price recalculate_bands band_delta points tier_points watch update_nbbo
    update_bands at_band straddling
straddles_in_limit = refl

resumed : is_trade_allowed (resume_trading (watch trading quotes) 100_000) 105_000 ≡ true
unfolding is_trade_allowed resume_trading set_reference_price recalculate_bands band_delta points
    tier_points watch update_nbbo update_bands at_band
resumed = refl
