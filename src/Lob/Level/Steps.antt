-- ===== src/Lob/Level/Steps.antt =====
-- A quantity that is taken off an order of a level of luv_lob.hpp, or all of it, keeps the level consistent.
use fort.Base.{
  List, ℕ, ◌<◌, ◌≡◌, refl, sym, ◌∙◌, ◌≢◌, inl, inr, true, arith, ◌==◌, update, ==_iff, Bool-cases,
}
use fort.Base.Int.{
  ℤ, pos, ◌+ℤ◌, ◌-ℤ◌, ◌≤ℤ◌, ◌<ℤ◌, int_laws, move_difference, -ℤ_parts, eq_of_parts, int64_max,
}
use fort.Lob.Level.{
  OrderSlot, PriceLevel, is_active, max_orders_per_level, reduce_slot, clamped_qty,
}
use fort.Lob.Level.Sums.{
  sum_active, count_active, sum_active-update, count_active-update, qty-le-sum_active,
}
use fort.Lob.Level.Listed.{IsQueue, IsQueue-same}
use fort.Lob.Level.Consistent.{IsConsistent}
use fort.Lob.Level.Enter.{IsPending}

-- A quantity that was clamped to what is available.
pub clamped_qty_bounds :
    (requested available : ℤ)
    → pos 0 <ℤ requested
    → pos 0 <ℤ available
    → let q = clamped_qty requested available in
      (pos 0 <ℤ q)
      × (q ≤ℤ available)
      × (q ≤ℤ requested)
      × ((available ≤ℤ requested) → q ≡ available)
      × ((requested ≤ℤ available) → q ≡ requested)
unfolding clamped_qty
clamped_qty_bounds requested available a b = (
  ground arith,
  ground arith,
  ground arith,
  λ h. ground (arith, eq_of_parts requested available),
  λ h. ground (arith, eq_of_parts requested available),
)

-- An order of a consistent level loses a clamped quantity.
module _ (lvl : PriceLevel) (slot : ℕ) (requested : ℤ) (c : IsConsistent lvl)
    (inside : slot < max_orders_per_level) (busy : is_active (lvl.orders slot) ≡ true)
    (positive : pos 0 <ℤ requested) where
  abbrev pub delta : ℤ
  delta = clamped_qty requested (lvl.orders slot).qty

  abbrev pub reduced : PriceLevel
  reduced = reduce_slot lvl slot delta

  reduced-active : (i : ℕ) → is_active (reduced.orders i) ≡ is_active (lvl.orders i)
  unfolding reduce_slot is_active
  reduced-active i = ground arith

  reduced-slot : (reduced.orders slot).qty ≡ (lvl.orders slot).qty -ℤ delta
  unfolding reduce_slot
  reduced-slot = ground arith

  reduced-other : (i : ℕ) → i ≢ slot → (reduced.orders i).qty ≡ (lvl.orders i).qty
  unfolding reduce_slot
  reduced-other i h = ground arith

  abbrev after : OrderSlot
  after = record (lvl.orders slot) { qty = (lvl.orders slot).qty -ℤ delta }

  after-active : is_active after ≡ true
  unfolding is_active
  after-active = busy

  reduced_total : reduced.total_qty ≡ sum_active max_orders_per_level reduced.orders
  unfolding reduce_slot
  reduced_total =
      let u = sum_active-update lvl.orders slot after 16 inside in
      let s = sum_active 16 (update lvl.orders slot after) in
      let q = (lvl.orders slot).qty in
      let v : s +ℤ q ≡ lvl.total_qty +ℤ (q -ℤ delta) =
        ground (arith, u, busy, after-active, c.total) in
      move_difference s lvl.total_qty q delta v

  reduced_count : reduced.order_count ≡ count_active max_orders_per_level reduced.orders
  unfolding reduce_slot
  reduced_count =
      ground
        (arith, c.counted, count_active-update lvl.orders slot after 16 inside, busy, after-active)

  reduced_fits : (reduced.total_qty ≤ℤ int64_max) × (pos 0 ≤ℤ (reduced.orders slot).qty)
  unfolding reduce_slot
  reduced_fits =
      let (low, high, _, _, _) =
        clamped_qty_bounds requested (lvl.orders slot).qty positive (c.positive slot busy) in
      (
        omega (arith, c.fits, low, -ℤ_parts lvl.total_qty delta),
        rw reduced-slot (omega (arith, high, -ℤ_parts (lvl.orders slot).qty delta)),
      )

  reduced_queued : (is : List ℕ) × IsQueue reduced is
  unfolding reduce_slot
  reduced_queued =
      let (is, v) = c.queued in
      (is, IsQueue-same lvl reduced is (λ j. (ground arith, ground arith, reduced-active j)) refl v)

  pub reduced-IsPending : IsPending reduced slot
  reduced-IsPending = record {
    inside = inside;
    busy = reduced-active slot ∙ busy;
    total = reduced_total;
    counted = reduced_count;
    positive = λ i h a. rw (reduced-other i h) (c.positive i (sym (reduced-active i) ∙ a));
    nonneg = reduced_fits.1;
    fits = reduced_fits.0;
    queued = reduced_queued;
  }

  -- While something is left of the order, the level is consistent.
  pub reduced-IsConsistent : pos 0 <ℤ (reduced.orders slot).qty → IsConsistent reduced
  reduced-IsConsistent left = record {
    total = reduced_total;
    counted = reduced_count;
    positive = λ i a. elim (Bool-cases (i == slot)) [
      | inl e ↦ rw ((==_iff i slot).0 e) left
      | inr e ↦
          rw (reduced-other i (λ p. ground (arith, p))) (c.positive i (sym (reduced-active i) ∙ a))
    ];
    fits = reduced_fits.0;
    queued = reduced_queued;
  }

  pub reduced-fields :
      (reduced.price ≡ lvl.price)
      × (reduced.order_count ≡ lvl.order_count)
      × ((reduced.orders slot).qty ≡ (lvl.orders slot).qty -ℤ delta)
      × (reduced.total_qty ≡ lvl.total_qty -ℤ delta)
  unfolding reduce_slot
  reduced-fields = (refl, refl, reduced-slot, refl)

-- Deleting an order takes its whole quantity off the total.
pub delete_total :
    (lvl : PriceLevel) (slot : ℕ)
    → IsConsistent lvl
    → slot < max_orders_per_level
    → is_active (lvl.orders slot) ≡ true
    → let q = (lvl.orders slot).qty in
      lvl.total_qty -ℤ clamped_qty q lvl.total_qty +ℤ q ≡ lvl.total_qty
delete_total lvl slot c h a =
    let q = (lvl.orders slot).qty in
    let le = qty-le-sum_active lvl.orders c.positive 16 slot h a in
    let p = c.positive slot a in
    let le' : q ≤ℤ lvl.total_qty = rw c.total le in
    let (_, _, _, _, e) = clamped_qty_bounds q lvl.total_qty p (omega arith) in
    rw (e le') (omega int_laws)
