-- ===== src/Execution/Risk.antt =====
-- PreTradeRisk of luv_execution.hpp, and RiskState of luv_arena.hpp. The pass bits are Booleans, `&` on
-- them `&&`. A sum or product that `__builtin_*_overflow` refuses fails its bit, so that its wrapped value
-- does not matter. The arena is there once `init` has succeeded (`ready`).
use fort.Base.{
  ℕ, ◌+◌, ◌-◌, ◌*◌, ◌/◌, ◌%◌, ◌^◌, Bool, true, false, not, ◌&&◌, ◌||◌, leb, ◌==◌, if◌then◌else◌,
  update,
}
use fort.Base.Int.{ℤ, pos, negsuc, ◌+ℤ◌, ◌-ℤ◌, ◌*ℤ◌, ltb_ℤ, leb_ℤ, int64_max, int64_min}
use fort.Numeric.{is_valid_quantity, is_valid_price, min_price, max_price}
use fort.Lob.RefMap.{symbols}

pub record RiskLimits : Type 0 where
  pub max_order_qty : ℤ
  pub max_abs_position : ℤ
  pub max_alpha_age_ns : ℕ
  pub min_price : ℤ
  pub max_price : ℤ
  pub reference_price : ℤ
  pub max_price_collar_pct : ℤ
  pub max_gross_loss : ℤ
  pub max_consecutive_rejections : ℕ

abbrev pub default_limits : RiskLimits
default_limits = record {
  max_order_qty = pos 1_000;
  max_abs_position = pos 100_000;
  max_alpha_age_ns = 250_000;
  min_price = min_price;
  max_price = max_price;
  reference_price = pos 0;
  max_price_collar_pct = pos 10;
  max_gross_loss = pos 0;
  max_consecutive_rejections = 5;
}

-- RiskLimits::is_valid
unfoldable pub is_valid : RiskLimits → Bool
is_valid l =
    is_valid_quantity l.max_order_qty
    && leb_ℤ (pos 0) l.max_abs_position
    && is_valid_price l.min_price
    && leb_ℤ l.min_price l.max_price
    && leb_ℤ l.max_price max_price
    && leb_ℤ (pos 0) l.reference_price
    && leb_ℤ (pos 0) l.max_price_collar_pct
    && leb_ℤ l.max_price_collar_pct (pos 100)
    && leb_ℤ (pos 0) l.max_gross_loss

pub record OrderIntent : Type 0 where
  pub symbol_idx : ℕ
  pub side : ℕ
  pub qty : ℤ
  pub price : ℤ
  pub alpha_timestamp_ns : ℕ
  pub now_ns : ℕ
  pub client_order_id : ℕ
  pub time_in_force : ℕ

pub record RiskState : Type 0 where
  pub net_position : ℤ
  pub gross_exposure : ℤ
  pub current_drawdown : ℤ
  pub order_count : ℕ
  pub reject_count : ℕ
  pub halted : ℕ

pub record RiskDecision : Type 0 where
  pub pass : Bool
  pub reject_mask : ℕ

pub record PreTradeRisk : Type 0 where
  pub ready : Bool
  pub limits : ℕ → RiskLimits

pub init : Bool → PreTradeRisk → Bool × PreTradeRisk
init arena_ready r =
    if not arena_ready
    then (false, r)
    else (true, record { ready = true; limits = λ s. default_limits })

unfoldable pub set_limits : PreTradeRisk → ℕ → RiskLimits → Bool × PreTradeRisk
set_limits r symbol l =
    if leb symbols symbol || not (is_valid l)
    then (false, r)
    else (true, record r { limits = update r.limits symbol l })

-- `(qty ^ mask) - mask` with a mask of -1 for odd sides: the negation.
unfoldable pub signed_qty_delta : ℕ → ℤ → ℤ
signed_qty_delta side qty = if side % 2 == 1 then pos 0 -ℤ qty else qty

unfoldable pub abs_i64 : ℤ → ℕ
abs_i64 (pos n) = n
abs_i64 (negsuc n) = n + 1

-- static_cast<uint64_t>
unfoldable pub to_u64 : ℤ → ℕ
to_u64 (pos n) = n
to_u64 (negsuc n) = 2 ^ 64 - (n + 1)

abbrev pub fits : ℤ → Bool
fits a = leb_ℤ int64_min a && leb_ℤ a int64_max

unfoldable pub valid_qty : RiskLimits → OrderIntent → Bool
valid_qty l i = ltb_ℤ (pos 0) i.qty && leb_ℤ i.qty l.max_order_qty

unfoldable pub safe_qty : RiskLimits → OrderIntent → ℤ
safe_qty l i = if valid_qty l i then i.qty else pos 0

unfoldable pub projected : RiskLimits → RiskState → OrderIntent → ℤ
projected l risk i = risk.net_position +ℤ signed_qty_delta i.side (safe_qty l i)

unfoldable pub valid_pos : RiskLimits → RiskState → OrderIntent → Bool
valid_pos l risk i =
    fits (projected l risk i)
    && leb_ℤ (pos 0) l.max_abs_position
    && leb (abs_i64 (projected l risk i)) (to_u64 l.max_abs_position)

unfoldable pub valid_alpha : RiskLimits → OrderIntent → Bool
valid_alpha l i =
    leb i.alpha_timestamp_ns i.now_ns && leb (i.now_ns - i.alpha_timestamp_ns) l.max_alpha_age_ns

unfoldable pub valid_price : RiskLimits → OrderIntent → Bool
valid_price l i =
    leb_ℤ (if ltb_ℤ (pos 0) l.min_price then l.min_price else pos 1) i.price
    && leb (to_u64 i.price)
        (to_u64 (if ltb_ℤ (pos 0) l.max_price then l.max_price else pos 0xffff_ffff))
    && leb (to_u64 i.price) 0xffff_ffff

unfoldable pub collar_ok : RiskLimits → OrderIntent → Bool
collar_ok l i =
    let price = to_u64 i.price in
    let reference = to_u64 l.reference_price in
    let diff = if leb reference price then price - reference else reference - price in
    if ltb_ℤ (pos 0) l.reference_price && ltb_ℤ (pos 0) l.max_price_collar_pct
    then leb diff (reference * to_u64 l.max_price_collar_pct % 2 ^ 64 / 100)
    else true

unfoldable pub loss_ok : RiskLimits → RiskState → Bool
loss_ok l risk = leb_ℤ l.max_gross_loss (pos 0) || leb_ℤ risk.current_drawdown l.max_gross_loss

unfoldable pub valid_notional : RiskLimits → RiskState → OrderIntent → Bool
valid_notional l risk i =
    let notional = i.price *ℤ safe_qty l i in
    valid_price l i
    && collar_ok l i
    && fits notional
    && fits (risk.gross_exposure +ℤ notional)
    && leb_ℤ (pos 0) risk.gross_exposure

abbrev bit : Bool → ℕ → ℕ
bit ok mask = if ok then 0 else mask

-- The bits of the mask are disjoint, so `|` is their sum.
unfoldable pub evaluate_with : RiskLimits → RiskState → OrderIntent → RiskDecision
evaluate_with l risk i =
    let halt = risk.halted == 0 in
    let price = valid_price l i && collar_ok l i in
    let pass =
      valid_qty l i
      && valid_pos l risk i
      && valid_alpha l i
      && halt
      && price
      && valid_notional l risk i
      && loss_ok l risk in
    let reject =
      bit (valid_qty l i) 1
      + bit (valid_pos l risk i) 2
      + bit (valid_alpha l i) 4
      + bit (halt && loss_ok l risk) 8
      + bit (price && valid_notional l risk i) 128 in
    record { pass = pass; reject_mask = if pass then 0 else reject }

unfoldable pub evaluate : PreTradeRisk → (ℕ → RiskState) → OrderIntent → RiskDecision
evaluate r states i =
    if not r.ready || leb symbols i.symbol_idx
    then record { pass = false; reject_mask = 64 }
    else evaluate_with (r.limits i.symbol_idx) (states i.symbol_idx) i
