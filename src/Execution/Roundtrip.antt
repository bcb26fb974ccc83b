-- ===== src/Execution/Roundtrip.antt =====
-- The reservation of an order in luv_execution.hpp: what it leaves after a pass, and its release.
use mathlib.Core.Bool.{false≢true}
use fort.Base.{
  ℕ, zero, suc, ◌+◌, ◌-◌, ◌%◌, ◌^◌, ◌≤◌, ◌<◌, ◌≡◌, ◌⊎◌, inl, inr, refl, ◌∙◌, true, none, some,
  arith, ltb, leb, ◌==◌, if◌then◌else◌, Bool-cases, Option-cases, update, ==_iff,
}
use fort.Base.Int.{
  ℤ, pos, ◌+ℤ◌, ◌-ℤ◌, ◌*ℤ◌, ◌≤ℤ◌, FitsInt64, int64_max, int64_min, int_laws, +ℤ_parts, wrap64,
  wrap64-FitsInt64,
}
use fort.Numeric.{checked_sub, checked_mul}
use fort.Execution.Risk.{
  RiskLimits, RiskState, OrderIntent, is_valid, evaluate_with, signed_qty_delta,
}
use fort.Execution.Limits.{IsWithin, evaluate_with-IsWithin}
use fort.Execution.Reserve.{
  ActiveOrder, no_order, SymbolExecState, max_active_orders, free_from, reserve_in,
  reserve_order_slot, release_reservation, released_gross, find_order, release_order_slot,
}

plus_minus : (a b : ℤ) → a +ℤ b -ℤ b ≡ a
plus_minus a b = omega int_laws

-- A sum is taken back without an overflow.
checked_sub-sum : (a b : ℤ) → FitsInt64 a → checked_sub (a +ℤ b) b ≡ some a
unfolding checked_sub
checked_sub-sum a b h =
    ground (arith, h, +ℤ_parts a b, +ℤ_parts int64_max b, +ℤ_parts int64_min b, plus_minus a b)

checked_mul-FitsInt64 : (a b : ℤ) → FitsInt64 (a *ℤ b) → checked_mul a b ≡ some (a *ℤ b)
unfolding checked_mul
checked_mul-FitsInt64 a b h = ground (arith, h)

free_from-some :
    (n i : ℕ) (orders : ℕ → ActiveOrder) (k : ℕ)
    → free_from n i orders ≡ some k
    → (i ≤ k) × (k < i + n)
unfolding free_from
free_from-some zero i orders k h = cc
free_from-some (suc n) i orders k h = ground (arith, free_from-some n (i + 1) orders k)

-- An order that no slot had is found in the slot that it was written to.
find_order-update :
    (n i : ℕ) (orders : ℕ → ActiveOrder) (id slot : ℕ) (o : ActiveOrder)
    → find_order n i orders id ≡ none
    → o.order_id ≡ id
    → i ≤ slot
    → slot < i + n
    → find_order n i (update orders slot o) id ≡ some slot
unfolding find_order
find_order-update zero i orders id slot o h e a b = absurd (omega arith)
find_order-update (suc n) i orders id slot o h e a b = elim (Bool-cases (i == slot)) [
  | inl q ↦ let p = (==_iff i slot).0 q in ground (arith, p)
  | inr q ↦ ground (arith, q, find_order-update n (i + 1) orders id slot o)
]

released_gross-sum :
    (gross price qty : ℤ)
    → FitsInt64 gross
    → FitsInt64 (price *ℤ qty)
    → released_gross (gross +ℤ price *ℤ qty) price qty ≡ some gross
released_gross-sum gross price qty fits_g fits_n =
    rw (checked_mul-FitsInt64 price qty fits_n, released_gross)
      (checked_sub-sum gross (price *ℤ qty) fits_g)

release_fields :
    (risk : RiskState) (side : ℕ) (qty price position gross : ℤ)
    → checked_sub risk.net_position (signed_qty_delta side qty) ≡ some position
    → released_gross risk.gross_exposure price qty ≡ some gross
    → release_reservation risk side qty price
      ≡ record risk { net_position = position; gross_exposure = gross }
unfolding release_reservation
release_fields risk side qty price position gross net exposed = ground (arith, net, exposed)

-- The release of what was added takes the branches without an overflow.
release_reservation-sum :
    (risk : RiskState) (side : ℕ) (qty price position gross : ℤ)
    → risk.net_position ≡ position +ℤ signed_qty_delta side qty
    → risk.gross_exposure ≡ gross +ℤ price *ℤ qty
    → FitsInt64 position
    → FitsInt64 gross
    → FitsInt64 (price *ℤ qty)
    → release_reservation risk side qty price
      ≡ record risk { net_position = position; gross_exposure = gross }
release_reservation-sum risk side qty price position gross a b fits_p fits_g fits_n =
    let net : checked_sub risk.net_position (signed_qty_delta side qty) ≡ some position =
      rw a (checked_sub-sum position (signed_qty_delta side qty) fits_p) in
    let exposed : released_gross risk.gross_exposure price qty ≡ some gross =
      rw b (released_gross-sum gross price qty fits_g fits_n) in
    release_fields risk side qty price position gross net exposed

-- What a reserved order adds to the risk state, if it is within the limits.
module _ (l : RiskLimits) (s : SymbolExecState) (i : OrderIntent) (w : IsWithin l s.risk i) where
  reserved_position :
      wrap64 (s.risk.net_position +ℤ signed_qty_delta i.side i.qty)
      ≡ s.risk.net_position +ℤ signed_qty_delta i.side i.qty
  reserved_position = wrap64-FitsInt64 _ w.position

  reserved_exposure :
      wrap64 (s.risk.gross_exposure +ℤ wrap64 (i.price *ℤ i.qty))
      ≡ s.risk.gross_exposure +ℤ i.price *ℤ i.qty
  reserved_exposure =
      rw (wrap64-FitsInt64 (i.price *ℤ i.qty) w.notional) (wrap64-FitsInt64 _ w.exposure)

-- An order that passed within its limits and was given a slot leaves the position within the limit on
-- both sides, the exposure an int64_t, and at most 64 orders.
pub reserve_order_slot-IsWithin :
    (l : RiskLimits) (s : SymbolExecState) (i : OrderIntent)
    → is_valid l ≡ true
    → (evaluate_with l s.risk i).pass ≡ true
    → (reserve_order_slot s i).0 ≡ true
    → let risk = (reserve_order_slot s i).1.risk in
      (risk.net_position ≤ℤ l.max_abs_position)
      × (pos 0 ≤ℤ risk.net_position +ℤ l.max_abs_position)
      × FitsInt64 risk.gross_exposure
      × (risk.order_count ≡ s.risk.order_count + 1)
      × (risk.order_count ≤ max_active_orders)
unfolding reserve_order_slot reserve_in
reserve_order_slot-IsWithin l s i v pass h =
    let w = evaluate_with-IsWithin l s.risk i v pass in
    elim (Bool-cases (leb max_active_orders s.risk.order_count)) [
      | inl full ↦ absurd (false≢true (rw full at h))
      | inr room ↦ elim (Option-cases (free_from max_active_orders 0 s.orders)) [
        | inl e ↦ absurd (false≢true (ground (arith, room, e, h)))
        | inr (slot, e) ↦
            rw (room, e, reserve_order_slot, reserved_position l s i w, reserved_exposure l s i w)
              (
                w.position_above,
                w.position_below,
                w.exposure,
                ground (arith, room),
                ground (arith, room),
              )
      ]
    ]

count_back :
    (c : ℕ)
    → c < max_active_orders
    → (if ltb 0 ((c + 1) % 2 ^ 32) then (c + 1) % 2 ^ 32 - 1 else (c + 1) % 2 ^ 32) ≡ c
count_back c h = ground arith

free_from-state :
    (n i : ℕ) (orders : ℕ → ActiveOrder) (k : ℕ)
    → free_from n i orders ≡ some k
    → ((orders k).state ≡ 0) ⊎ ((orders k).state ≡ 3)
unfolding free_from
free_from-state zero i orders k h = cc
free_from-state (suc n) i orders k h = ground (arith, free_from-state n (i + 1) orders k)

module _ (s : SymbolExecState) (i : OrderIntent) (slot : ℕ)
    (inside : slot < max_active_orders) where
  find_order-reserve_in :
      find_order max_active_orders 0 s.orders i.client_order_id ≡ none
      → find_order max_active_orders 0 (reserve_in s i slot).orders i.client_order_id ≡ some slot
  unfolding reserve_in
  find_order-reserve_in h =
      find_order-update max_active_orders 0 s.orders i.client_order_id slot _ h refl (omega arith)
        inside

  release-risk :
      (l : RiskLimits)
      → IsWithin l s.risk i
      → FitsInt64 s.risk.net_position
      → FitsInt64 s.risk.gross_exposure
      → s.risk.order_count < max_active_orders
      → find_order max_active_orders 0 s.orders i.client_order_id ≡ none
      → (release_order_slot (reserve_in s i slot) i).risk ≡ s.risk
  unfolding release_order_slot reserve_in
  release-risk l w fits_p fits_g room h =
      rw (find_order-reserve_in h, release_order_slot)
        (release_reservation-sum _ i.side i.qty i.price s.risk.net_position s.risk.gross_exposure
            (reserved_position l s i w) (reserved_exposure l s i w) fits_p fits_g w.notional
          ∙ rw (count_back s.risk.order_count room))

  release-orders :
      find_order max_active_orders 0 s.orders i.client_order_id ≡ none
      → (j : ℕ)
      → (release_order_slot (reserve_in s i slot) i).orders j
        ≡ (if j == slot then no_order else s.orders j)
  unfolding release_order_slot reserve_in
  release-orders h j = rw ((find_order-reserve_in h), release_order_slot) (ground arith)

-- An order whose id no slot has, and which passed under valid limits, once it was given a slot, is released
-- to the risk state of before, whose position and exposure are int64_t, and leaves the slot empty and the
-- other slots as they were.
pub release-reserve :
    (l : RiskLimits) (s : SymbolExecState) (i : OrderIntent)
    → is_valid l ≡ true
    → (evaluate_with l s.risk i).pass ≡ true
    → FitsInt64 s.risk.net_position
    → FitsInt64 s.risk.gross_exposure
    → find_order max_active_orders 0 s.orders i.client_order_id ≡ none
    → (reserve_order_slot s i).0 ≡ true
    → let s' = release_order_slot (reserve_order_slot s i).1 i in
      (s'.risk ≡ s.risk)
      × ((j : ℕ)
          → (s'.orders j ≡ s.orders j)
            ⊎ (((s.orders j).state ≡ 0) ⊎ ((s.orders j).state ≡ 3)) × (s'.orders j ≡ no_order))
unfolding reserve_order_slot
release-reserve l s i valid pass fits_p fits_g unknown h =
    elim (Bool-cases (leb max_active_orders s.risk.order_count)) [
      | inl full ↦ absurd (false≢true (rw full at h))
      | inr room ↦ elim (Option-cases (free_from max_active_orders 0 s.orders)) [
        | inl e ↦ absurd (false≢true (ground (arith, room, e, h)))
        | inr (slot, e) ↦
            let inside : slot < max_active_orders =
              omega (arith, free_from-some max_active_orders 0 s.orders slot e) in
            let free = free_from-state max_active_orders 0 s.orders slot e in
            rw (room, e, reserve_order_slot)
              (
                release-risk s i slot inside l (evaluate_with-IsWithin l s.risk i valid pass) fits_p
                    fits_g (ground (arith, room)) unknown,
                λ j. elim (Bool-cases (j == slot)) [
                  | inl q ↦
                      let same = (==_iff j slot).0 q in
                      inr (rw same free, release-orders s i slot inside unknown j ∙ rw q)
                  | inr q ↦ inl (release-orders s i slot inside unknown j ∙ rw q)
                ],
              )
      ]
    ]
