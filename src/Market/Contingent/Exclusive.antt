-- ===== src/Market/Contingent/Exclusive.antt =====
-- One-cancels-other in luv_contingent_orders.hpp: of a pair, none is active once the other was filled.
use fort.Base.{
  ℕ, ◌≤◌, ◌<◌, ◌≡◌, inl, inr, refl, sym, ◌∙◌, Bool, true, false, arith, ltb, ◌==◌, Bool-cases,
  Option-cases, ==_iff,
}
use fort.Market.Contingent.{
  ContingentState, inactive, active, triggered, cancelled, filled, ContingentOrder,
  ContingentOrderManager, max_orders, is_active, is_oco, price_order, on_market_price, find_active,
  set_state, cancel_order,
}

abbrev pub is_filled : ContingentState → Bool
is_filled filled = true
is_filled inactive = false
is_filled active = false
is_filled triggered = false
is_filled cancelled = false

-- The ids in use differ; the partner of a pair is in use; and a filled order's partner is not active.
pub record IsManager (m : ContingentOrderManager) : Type 0 where
  pub bound : m.order_count ≤ max_orders
  pub unique :
      (i j : ℕ)
      → i < m.order_count
      → j < m.order_count
      → (m.orders i).order_id ≡ (m.orders j).order_id
      → i ≡ j
  pub paired :
      (i : ℕ)
      → i < m.order_count
      → is_oco (m.orders i).type ≡ true
      → (0 < (m.orders i).pair_order_id)
        × ((j : ℕ) × (j < m.order_count) × ((m.orders j).order_id ≡ (m.orders i).pair_order_id))
  pub exclusive :
      (i j : ℕ)
      → i < m.order_count
      → j < m.order_count
      → is_oco (m.orders i).type ≡ true
      → (m.orders j).order_id ≡ (m.orders i).pair_order_id
      → is_filled (m.orders i).state ≡ true
      → is_active (m.orders j).state ≡ false

-- A change of states that wakes and fills no order.
pub record Calms (o o' : ContingentOrder) : Type 0 where
  pub same_id : o'.order_id ≡ o.order_id
  pub same_pair : o'.pair_order_id ≡ o.pair_order_id
  pub same_type : o'.type ≡ o.type
  pub no_wake : is_active o.state ≡ false → is_active o'.state ≡ false
  pub no_fill : is_filled o.state ≡ false → is_filled o'.state ≡ false

module _ (m : ContingentOrderManager) (orders : ℕ → ContingentOrder)
    (calm : (i : ℕ) → Calms (m.orders i) (orders i)) where
  abbrev calmer : ContingentOrderManager
  calmer = record m { orders = orders }

  was_filled : (i : ℕ) → is_filled (orders i).state ≡ true → is_filled (m.orders i).state ≡ true
  was_filled i f = ground (arith, f, (calm i).no_fill)

  Calms-IsManager : IsManager m → IsManager calmer
  Calms-IsManager v = record {
    bound = v.bound;
    unique = λ i j a b e. v.unique i j a b (sym (calm i).same_id ∙ e ∙ (calm j).same_id);
    paired = λ i a o.
        let (p, partner) = v.paired i a (rw (calm i).same_type at o) in
        let (j, b, e) = partner in
        (rw (calm i).same_pair p, (j, b, (calm j).same_id ∙ e ∙ sym (calm i).same_pair));
    exclusive = λ i j a b o e f. (calm j).no_wake (
        v.exclusive i j a b (rw (calm i).same_type at o)
          (sym (calm j).same_id ∙ e ∙ (calm i).same_pair) (was_filled i f));
  }

price_order-Calms : (price : ℕ) (o : ContingentOrder) → Calms o (price_order price o)
unfolding price_order
price_order-Calms price o = record {
  same_id = ground arith;
  same_pair = ground arith;
  same_type = ground arith;
  no_wake = λ h. ground (arith, h);
  no_fill = λ h. ground (arith, h);
}

pub Calms-refl : (o : ContingentOrder) → Calms o o
Calms-refl o = record {
  same_id = refl;
  same_pair = refl;
  same_type = refl;
  no_wake = λ h. h;
  no_fill = λ h. h;
}

pub on_market_price-IsManager :
    (m : ContingentOrderManager) (price : ℕ) → IsManager m → IsManager (on_market_price m price)
unfolding on_market_price
on_market_price-IsManager m price v =
    Calms-IsManager m (on_market_price m price).orders
      (λ i. elim (Bool-cases (ltb i m.order_count)) [
        | inl q ↦ rw q (price_order-Calms price (m.orders i))
        | inr q ↦ rw q (Calms-refl (m.orders i))
      ])
      v

pub cancelled-Calms :
    (m : ContingentOrderManager) (k i : ℕ) → Calms (m.orders i) ((set_state m k cancelled).orders i)
cancelled-Calms m k i = elim (Bool-cases (i == k)) [
  | inl q ↦
      let p = (==_iff i k).0 q in
      rw (q, p)
        (record {
          same_id = refl;
          same_pair = refl;
          same_type = refl;
          no_wake = λ h. refl;
          no_fill = λ h. refl;
        })
  | inr q ↦ rw q (Calms-refl (m.orders i))
]

pub cancel_order-IsManager :
    (m : ContingentOrderManager) (id : ℕ) → IsManager m → IsManager (cancel_order m id)
unfolding cancel_order
cancel_order-IsManager m id v = elim (Option-cases (find_active m.order_count 0 m.orders id)) [
  | inl e ↦ rw (e, cancel_order) v
  | inr (k, e) ↦
      rw (e, cancel_order)
        (Calms-IsManager m (set_state m k cancelled).orders (cancelled-Calms m k) v)
]
