-- ===== src/Execution/Limits.antt =====
-- What a pass of PreTradeRisk::evaluate in luv_execution.hpp guarantees, and what a rejection says.
use mathlib.Core.Bool.{false≢true}
use native.Mathlib.Nat.{mul-le-mul_left}
use fort.Base.{
  ℕ, ◌+◌, ◌-◌, ◌*◌, ◌/◌, ◌%◌, ◌^◌, ◌≤◌, ◌<◌, ◌≡◌, ◌↔◌, ◌⊎◌, inl, inr, true, not, ◌||◌, arith, leb,
  if◌then◌else◌, Bool-cases, subst,
}
use fort.Base.Int.{ℤ, pos, ◌+ℤ◌, ◌-ℤ◌, ◌*ℤ◌, ◌≤ℤ◌, ◌<ℤ◌, leb_ℤ, FitsInt64, eq_of_parts, +ℤ_parts}
use fort.Numeric.{is_valid_price, max_price}
use fort.Lob.RefMap.{symbols}
use fort.Execution.Risk.{
  RiskLimits, OrderIntent, RiskState, PreTradeRisk, is_valid, signed_qty_delta, abs_i64, to_u64,
  valid_qty, safe_qty, projected, valid_pos, valid_alpha, valid_price, collar_ok, loss_ok,
  valid_notional, evaluate_with, evaluate,
}

-- An order within every limit of its symbol.
pub record IsWithin (l : RiskLimits) (risk : RiskState) (i : OrderIntent) : Type 0 where
  pub some_qty : pos 0 <ℤ i.qty
  pub qty : i.qty ≤ℤ l.max_order_qty
  pub position_above : risk.net_position +ℤ signed_qty_delta i.side i.qty ≤ℤ l.max_abs_position
  pub position_below :
      pos 0 ≤ℤ risk.net_position +ℤ signed_qty_delta i.side i.qty +ℤ l.max_abs_position
  pub position : FitsInt64 (risk.net_position +ℤ signed_qty_delta i.side i.qty)
  pub fresh : i.alpha_timestamp_ns ≤ i.now_ns
  pub recent : i.now_ns ≤ i.alpha_timestamp_ns + l.max_alpha_age_ns
  pub running : risk.halted ≡ 0
  pub price_above : l.min_price ≤ℤ i.price
  pub price_below : i.price ≤ℤ l.max_price
  pub loss : (l.max_gross_loss ≡ pos 0) ⊎ (risk.current_drawdown ≤ℤ l.max_gross_loss)
  pub notional : FitsInt64 (i.price *ℤ i.qty)
  pub exposure : FitsInt64 (risk.gross_exposure +ℤ i.price *ℤ i.qty)
  pub exposed : pos 0 ≤ℤ risk.gross_exposure

abs_bounds :
    (p m : ℤ)
    → leb_ℤ (pos 0) m ≡ true
    → leb (abs_i64 p) (to_u64 m) ≡ true
    → (p ≤ℤ m) × (pos 0 ≤ℤ p +ℤ m)
unfolding abs_i64 to_u64
abs_bounds p m a b = ground (arith, +ℤ_parts p m)

module _ (l : RiskLimits) (risk : RiskState) (i : OrderIntent) where
  -- A quantity that is valid is used as it is.
  safe_qty-valid : valid_qty l i ≡ true → safe_qty l i ≡ i.qty
  unfolding safe_qty
  safe_qty-valid q = rw q

  -- The bits of a pass.
  pass_bits :
      (evaluate_with l risk i).pass ≡ true
      → (valid_qty l i ≡ true)
        × (valid_pos l risk i ≡ true)
        × (valid_alpha l i ≡ true)
        × (risk.halted ≡ 0)
        × (valid_price l i ≡ true)
        × (collar_ok l i ≡ true)
        × (valid_notional l risk i ≡ true)
        × (loss_ok l risk ≡ true)
  unfolding evaluate_with
  pass_bits h = ground arith

  position_bounds :
      valid_qty l i ≡ true
      → valid_pos l risk i ≡ true
      → let p = risk.net_position +ℤ signed_qty_delta i.side i.qty in
        ((p ≤ℤ l.max_abs_position) × (pos 0 ≤ℤ p +ℤ l.max_abs_position)) × FitsInt64 p
  unfolding valid_pos projected
  position_bounds q h =
      let h' = rw (safe_qty-valid q) at h in
      (
        abs_bounds (risk.net_position +ℤ signed_qty_delta i.side i.qty) l.max_abs_position
            (ground (arith, h)) (ground (arith, h')),
        ground (arith, h'),
      )

  price_bounds :
      is_valid l ≡ true
      → valid_price l i ≡ true
      → (l.min_price ≤ℤ i.price) × (i.price ≤ℤ l.max_price)
  unfolding is_valid valid_price to_u64 is_valid_price
  price_bounds v h = ground arith

  notional_bounds :
      valid_qty l i ≡ true
      → valid_notional l risk i ≡ true
      → FitsInt64 (i.price *ℤ i.qty)
        × FitsInt64 (risk.gross_exposure +ℤ i.price *ℤ i.qty)
        × (pos 0 ≤ℤ risk.gross_exposure)
  unfolding valid_notional
  notional_bounds q h = let h' = rw (safe_qty-valid q) at h in ground (arith, h')

  -- Under valid limits, an order that passes is within every one of them.
  pub evaluate_with-IsWithin :
      is_valid l ≡ true → (evaluate_with l risk i).pass ≡ true → IsWithin l risk i
  unfolding valid_qty valid_alpha loss_ok is_valid
  evaluate_with-IsWithin v h =
      let (q, p, a, running, price, collar, notional, loss) = pass_bits h in
      let ((above, below), position) = position_bounds q p in
      let (low, high) = price_bounds v price in
      let (fits, exposure, exposed) = notional_bounds q notional in
      record {
        some_qty = ground (arith, q);
        qty = ground (arith, q);
        position_above = above;
        position_below = below;
        position = position;
        fresh = ground (arith, a);
        recent = ground (arith, a);
        running = running;
        price_above = low;
        price_below = high;
        loss = ground (arith, loss, v, eq_of_parts l.max_gross_loss (pos 0));
        notional = fits;
        exposure = exposure;
        exposed = exposed;
      }

  -- The mask of a decision is empty exactly if the order passes.
  evaluate_with-mask :
      ((evaluate_with l risk i).pass ≡ true) ↔ ((evaluate_with l risk i).reject_mask ≡ 0)
  unfolding evaluate_with
  evaluate_with-mask = ground arith

distance_bound :
    (d r p : ℕ) → r ≤ 0xffff_ffff → p ≤ 100 → leb d (r * p % 2 ^ 64 / 100) ≡ true → 100 * d ≤ r * p
distance_bound d r p a b h = let product = mul-le-mul_left r b in ground (arith, h)

distance :
    (a b : ℤ)
    → pos 0 <ℤ a
    → pos 0 <ℤ b
    → (if leb (to_u64 b) (to_u64 a) then to_u64 a - to_u64 b else to_u64 b - to_u64 a)
      ≡ abs_i64 (a -ℤ b)
unfolding to_u64 abs_i64 ◌-ℤ◌
distance a b h k = ground arith

u64_bound : (a : ℤ) (n : ℕ) → pos 0 ≤ℤ a → a ≤ℤ pos n → to_u64 a ≤ n
unfolding to_u64
u64_bound a n h k = ground arith

module _ (l : RiskLimits) (i : OrderIntent) where
  collar_bounds :
      pos 0 <ℤ l.reference_price
      → l.reference_price ≤ℤ max_price
      → pos 0 <ℤ l.max_price_collar_pct
      → l.max_price_collar_pct ≤ℤ pos 100
      → pos 0 <ℤ i.price
      → collar_ok l i ≡ true
      → 100 * abs_i64 (i.price -ℤ l.reference_price)
        ≤ to_u64 l.reference_price * to_u64 l.max_price_collar_pct
  unfolding collar_ok
  collar_bounds named small pct hundred priced h =
      subst (λ d. 100 * d ≤ to_u64 l.reference_price * to_u64 l.max_price_collar_pct)
        (distance i.price l.reference_price priced named)
        (distance_bound _ (to_u64 l.reference_price) (to_u64 l.max_price_collar_pct)
          (u64_bound l.reference_price 0xffff_ffff (omega arith) small)
          (u64_bound l.max_price_collar_pct 100 (omega arith) hundred)
          (ground (arith, h, named, pct)))

-- An order that `evaluate` passes, under valid limits for its symbol, is of a known symbol and within
-- every limit: quantity, position on both sides, age of the signal, halt, price range, loss, and an
-- exposure that stays an int64_t; and its price is within the collar, unless there is no reference
-- price, or none that an order could have, or the collar is 0.
pub evaluate-IsWithin :
    (r : PreTradeRisk) (states : ℕ → RiskState) (i : OrderIntent)
    → is_valid (r.limits i.symbol_idx) ≡ true
    → (evaluate r states i).pass ≡ true
    → let l = r.limits i.symbol_idx in
      (i.symbol_idx < symbols)
      × IsWithin l (states i.symbol_idx) i
      × ((l.reference_price ≡ pos 0)
          ⊎ (max_price <ℤ l.reference_price)
          ⊎ (l.max_price_collar_pct ≡ pos 0)
          ⊎ (100 * abs_i64 (i.price -ℤ l.reference_price)
              ≤ to_u64 l.reference_price * to_u64 l.max_price_collar_pct))
unfolding evaluate is_valid is_valid_price
evaluate-IsWithin r states i v h = elim (Bool-cases (not r.ready || leb symbols i.symbol_idx)) [
  | inl e ↦ absurd (false≢true (rw e at h))
  | inr e ↦
      let l = r.limits i.symbol_idx in
      let risk = states i.symbol_idx in
      let h' : (evaluate_with l risk i).pass ≡ true = rw e at h in
      let w = evaluate_with-IsWithin l risk i v h' in
      let (q, p, a, running, price, collar, notional, loss) = pass_bits l risk i h' in
      (
        ground (arith, e),
        w,
        ground (
          arith,
          v,
          w.price_above,
          collar,
          collar_bounds l i,
          eq_of_parts l.reference_price (pos 0),
          eq_of_parts l.max_price_collar_pct (pos 0),
        ),
      )
]

-- The mask of a decision of `evaluate` is empty exactly if the order passes.
pub evaluate-mask :
    (r : PreTradeRisk) (states : ℕ → RiskState) (i : OrderIntent)
    → ((evaluate r states i).pass ≡ true) ↔ ((evaluate r states i).reject_mask ≡ 0)
unfolding evaluate
evaluate-mask r states i = elim (Bool-cases (not r.ready || leb symbols i.symbol_idx)) [
  | inl e ↦ rw e (λ h. absurd (false≢true h), λ h. absurd (omega arith))
  | inr e ↦ rw e (evaluate_with-mask (r.limits i.symbol_idx) (states i.symbol_idx) i)
]
