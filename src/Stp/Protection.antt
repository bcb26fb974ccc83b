-- ===== src/Stp/Protection.antt =====
-- MarketMakerProtection of luv_stp.hpp. The sums and products of uint64_t and int64_t are unchecked in the
-- source, and wrap.
use fort.Base.{
  ℕ, ◌+◌, ◌%◌, ◌^◌, ◌≡◌, refl, Bool, true, false, ◌||◌, List, [], ◌∷◌, ltb, ◌==◌, if◌then◌else◌,
}
use fort.Base.Int.{ℤ, pos, ◌+ℤ◌, ◌-ℤ◌, ◌*ℤ◌, ◌≤ℤ◌, ltb_ℤ, FitsInt64, wrap64}

pub record MmpConfig : Type 0 where
  pub window_ns : ℕ
  pub max_traded_volume : ℤ
  pub max_traded_notional : ℤ
  pub max_delta_volume : ℤ

pub record MarketMakerProtection : Type 0 where
  pub config : MmpConfig
  pub tripped : Bool
  pub trip_ts_ns : ℕ
  pub window_start_ts_ns : ℕ
  pub volume_in_window : ℤ
  pub notional_in_window : ℤ
  pub delta_in_window : ℤ

pub record Trade : Type 0 where
  pub ts_ns : ℕ
  pub side : ℕ
  pub qty : ℤ
  pub price : ℤ

-- exec::kBuy
abbrev pub buy : ℕ
buy = 0

-- A trade after the window's end starts a new one.
unfoldable pub slide : MarketMakerProtection → ℕ → MarketMakerProtection
slide p ts =
    if ltb ((p.window_start_ts_ns + p.config.window_ns) % 2 ^ 64) ts
    then record p {
      window_start_ts_ns = ts;
      volume_in_window = pos 0;
      notional_in_window = pos 0;
      delta_in_window = pos 0;
    }
    else p

unfoldable pub add_trade : MarketMakerProtection → Trade → MarketMakerProtection
add_trade p t = record p {
  volume_in_window = wrap64 (p.volume_in_window +ℤ t.qty);
  notional_in_window = wrap64 (p.notional_in_window +ℤ wrap64 (t.qty *ℤ t.price));
  delta_in_window =
      wrap64 (if t.side == buy then p.delta_in_window +ℤ t.qty else p.delta_in_window -ℤ t.qty);
}

abbrev pub abs : ℤ → ℤ
abs a = if ltb_ℤ a (pos 0) then wrap64 (pos 0 -ℤ a) else a

unfoldable pub breached : MarketMakerProtection → Bool
breached p =
    ltb_ℤ p.config.max_traded_volume p.volume_in_window
    || ltb_ℤ p.config.max_traded_notional p.notional_in_window
    || ltb_ℤ p.config.max_delta_volume (abs p.delta_in_window)

unfoldable pub check_limits : MarketMakerProtection → ℕ → Bool × MarketMakerProtection
check_limits p ts =
    if breached p then (false, record p { tripped = true; trip_ts_ns = ts }) else (true, p)

unfoldable pub on_trade : MarketMakerProtection → Trade → Bool × MarketMakerProtection
on_trade p t =
    if p.tripped then (false, p) else check_limits (add_trade (slide p t.ts_ns) t) t.ts_ns

unfoldable pub reset : MarketMakerProtection → MarketMakerProtection
reset p = record p {
  tripped = false;
  trip_ts_ns = 0;
  volume_in_window = pos 0;
  notional_in_window = pos 0;
  delta_in_window = pos 0;
  window_start_ts_ns = 0;
}

-- The trades that count, last first: those since the one that started the window.
pub record Window : Type 0 where
  pub start : ℕ
  pub trades : List Trade

-- The window tumbles: a trade behind its end starts a new one.
abbrev pub tumble : ℕ → Window → ℕ → Window
tumble window_ns w ts =
    if ltb ((w.start + window_ns) % 2 ^ 64) ts then record { start = ts; trades = [] } else w

unfoldable pub next_window : ℕ → Window → Trade → Window
next_window window_ns w t =
    let v = tumble window_ns w t.ts_ns in record { start = v.start; trades = t ∷ v.trades }

abbrev pub total : (Trade → ℤ) → List Trade → ℤ
total f [] = pos 0
total f (t ∷ ts) = total f ts +ℤ f t

abbrev signed_qty : Trade → ℤ
signed_qty t = if t.side == buy then t.qty else pos 0 -ℤ t.qty

-- The trades of a window are within the three limits.
abbrev pub WithinLimits : MmpConfig → List Trade → Type 0
WithinLimits c ts =
    (total (λ t. t.qty) ts ≤ℤ c.max_traded_volume)
    × (total (λ t. t.qty *ℤ t.price) ts ≤ℤ c.max_traded_notional)
    × (total signed_qty ts ≤ℤ c.max_delta_volume)
    × (pos 0 -ℤ total signed_qty ts ≤ℤ c.max_delta_volume)

-- The sums that the source keeps are those of the window.
pub record Agrees (p : MarketMakerProtection) (w : Window) : Type 0 where
  pub start : p.window_start_ts_ns ≡ w.start
  pub volume : p.volume_in_window ≡ total (λ t. t.qty) w.trades
  pub notional : p.notional_in_window ≡ total (λ t. t.qty *ℤ t.price) w.trades
  pub delta : p.delta_in_window ≡ total signed_qty w.trades

abbrev pub AllFit : List Trade → Type 0
AllFit [] = Unit
AllFit (t ∷ ts) = FitsInt64 (t.qty *ℤ t.price) × AllFit ts

-- No sum of the window is outside int64_t.
pub record FitsSums (ts : List Trade) : Type 0 where
  pub volume : FitsInt64 (total (λ t. t.qty) ts)
  pub notional : FitsInt64 (total (λ t. t.qty *ℤ t.price) ts)
  pub delta : FitsInt64 (total signed_qty ts)
  pub negated : FitsInt64 (pos 0 -ℤ total signed_qty ts)
  pub products : AllFit ts

-- A tripped protection refuses every trade and stays as it is, until it is reset.
pub on_trade-tripped :
    (p : MarketMakerProtection) (t : Trade)
    → p.tripped ≡ true
    → (on_trade p t ≡ (false, p))
      × ((reset p).tripped ≡ false)
      × Agrees (reset p) (record { start = 0; trades = [] })
unfolding on_trade reset
on_trade-tripped p t h =
    (rw h, refl, record { start = refl; volume = refl; notional = refl; delta = refl })
