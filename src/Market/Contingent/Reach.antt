-- ===== src/Market/Contingent/Reach.antt =====
-- All that ContingentOrderManager in luv_contingent_orders.hpp can come to, with fresh ids for new orders.
use fort.Base.{
  ℕ, ◌+◌, ◌≤◌, ◌<◌, ◌≡◌, ◌≢◌, inl, inr, sym, ◌∙◌, Bool, true, false, arith, ltb, leb, ◌==◌,
  Bool-cases, ==_iff,
}
use fort.Market.Contingent.{
  ContingentOrder, ContingentOrderManager, contingent_order_manager, max_orders, is_active, is_oco,
  add_oco_pair, add_trailing_stop, on_market_price, cancel_order, on_order_fill,
}
use fort.Market.Contingent.Exclusive.{
  is_filled, IsManager, on_market_price-IsManager, cancel_order-IsManager,
}
use fort.Market.Contingent.Fill.{on_order_fill-IsManager}

-- No order in use has the id.
abbrev pub Fresh : ContingentOrderManager → ℕ → Type 0
Fresh m id = (i : ℕ) → i < m.order_count → ((m.orders i).order_id == id) ≡ false

pub contingent_order_manager-IsManager : IsManager contingent_order_manager
contingent_order_manager-IsManager = record {
  bound = omega arith;
  unique = λ i j a b e. absurd (omega (arith, a));
  paired = λ i a o. absurd (omega (arith, a));
  exclusive = λ i j a b o e f. absurd (omega (arith, a));
}

-- New orders behind the old: with ids that are fresh and differ, not filled, and their partners in use.
module _ (m : ContingentOrderManager) (v : IsManager m) (orders : ℕ → ContingentOrder) (count : ℕ)
    (longer : m.order_count ≤ count) (room : count ≤ max_orders)
    (kept : (i : ℕ) → i < m.order_count → orders i ≡ m.orders i)
    (apart : (i j : ℕ)
      → m.order_count ≤ i
      → i < count
      → j < count
      → (i == j) ≡ false
      → ((orders j).order_id == (orders i).order_id) ≡ false)
    (open_order : (i : ℕ) → m.order_count ≤ i → i < count → is_filled (orders i).state ≡ false)
    (partner : (i : ℕ)
      → m.order_count ≤ i
      → i < count
      → is_oco (orders i).type ≡ true
      → (0 < (orders i).pair_order_id)
        × ((j : ℕ) × (j < count) × ((orders j).order_id ≡ (orders i).pair_order_id))) where
  abbrev extended : ContingentOrderManager
  extended = record { orders = orders; order_count = count }

  same_id :
      (i j : ℕ)
      → m.order_count ≤ i
      → i < count
      → j < count
      → (orders j).order_id ≡ (orders i).order_id
      → i ≡ j
  same_id i j new a b e = elim (Bool-cases (i == j)) [
    | inl q ↦ (==_iff i j).0 q
    | inr q ↦ absurd (ground (arith, apart i j new a b q, e))
  ]

  extended-IsManager : IsManager extended
  extended-IsManager = record {
    bound = room;
    unique = λ i j a b e. elim (Bool-cases (ltb i m.order_count)) [
      | inr new ↦ same_id i j (ground (arith, new)) a b (sym e)
      | inl old ↦ elim (Bool-cases (ltb j m.order_count)) [
        | inr new ↦ sym (same_id j i (ground (arith, new)) b a e)
        | inl old' ↦
            let i_old : i < m.order_count = ground (arith, old) in
            let j_old : j < m.order_count = ground (arith, old') in
            v.unique i j i_old j_old (rw (kept i i_old, kept j j_old) at e)
      ]
    ];
    paired = λ i a o. elim (Bool-cases (ltb i m.order_count)) [
      | inr new ↦ partner i (ground (arith, new)) a o
      | inl old ↦
          let i_old : i < m.order_count = ground (arith, old) in
          let k = kept i i_old in
          let (p, other) = v.paired i i_old (rw k at o) in
          let (j, b, e) = other in (rw k p, (j, omega (arith, b, longer), rw (k, kept j b) e))
    ];
    exclusive = λ i j a b o e f. elim (Bool-cases (ltb i m.order_count)) [
      | inr new ↦ cc (sym f ∙ open_order i (ground (arith, new)) a)
      | inl old ↦
          let i_old : i < m.order_count = ground (arith, old) in
          let k = kept i i_old in
          let o' = rw k at o in
          let f' = rw k at f in
          elim (Bool-cases (ltb j m.order_count)) [
            | inl old' ↦
                let j_old : j < m.order_count = ground (arith, old') in
                let l = kept j j_old in rw l (v.exclusive i j i_old j_old o' (rw (k, l) at e) f')
            | inr new ↦
                let (p, other) = v.paired i i_old o' in
                let (q, c, d) = other in
                let q_in : q < count = omega (arith, c, longer) in
                let d' : (orders q).order_id ≡ (orders j).order_id =
                  rw (kept q c) d ∙ sym (rw k at e) in
                let clash = same_id j q (ground (arith, new)) b q_in d' in
                absurd (ground (arith, new, c, clash))
          ]
    ];
  }

module _ (m : ContingentOrderManager) (v : IsManager m) where
  add_trailing_stop-IsManager :
      (id : ℕ) (is_buy : Bool) (price delta qty : ℕ)
      → Fresh m id
      → IsManager (add_trailing_stop m id is_buy price delta qty).1
  unfolding add_trailing_stop
  add_trailing_stop-IsManager id is_buy price delta qty fresh =
      elim (Bool-cases (leb max_orders m.order_count)) [
        | inl full ↦ rw (full, add_trailing_stop) v
        | inr room ↦
            let orders = (add_trailing_stop m id is_buy price delta qty).1.orders in
            let w =
              extended-IsManager m v orders (m.order_count + 1) (omega arith) (ground (arith, room))
                (λ i l. ground (arith, room, l))
                (λ i j n a b q. ground (arith, room, n, a, b, q, fresh j))
                (λ i n a. ground (arith, room, n, a))
                (λ i n a o. absurd (ground (arith, room, n, a, o))) in
            rw (room, add_trailing_stop) (rw (room, add_trailing_stop) at w)
      ]

  -- The pair's ids are above 0: 0 in `pair_order_id` means that there is no partner.
  add_oco_pair-IsManager :
      (a_id limit_price b_id stop_price : ℕ) (is_buy : Bool) (qty : ℕ)
      → 0 < a_id
      → 0 < b_id
      → a_id ≢ b_id
      → Fresh m a_id
      → Fresh m b_id
      → IsManager (add_oco_pair m a_id limit_price b_id stop_price is_buy qty).1
  unfolding add_oco_pair
  add_oco_pair-IsManager a_id limit_price b_id stop_price is_buy qty a_pos b_pos apart fresh_a
        fresh_b =
      elim (Bool-cases (ltb max_orders (m.order_count + 2))) [
        | inl full ↦ rw (full, add_oco_pair) v
        | inr room ↦
            let n = m.order_count in
            let orders = (add_oco_pair m a_id limit_price b_id stop_price is_buy qty).1.orders in
            let w =
              extended-IsManager m v orders (m.order_count + 2) (omega arith) (ground (arith, room))
                (λ i l. ground (arith, room, l))
                (λ i j n a b q. ground (arith, room, n, a, b, q, fresh_a j, fresh_b j, apart))
                (λ i n a. ground (arith, room, n, a))
                (λ i l a o. elim (Bool-cases (i == n)) [
                  | inl q ↦ (
                    ground (arith, room, q, b_pos),
                    (n + 1, omega arith, ground (arith, room, q)),
                  )
                  | inr q ↦ (
                    ground (arith, room, q, l, a, a_pos),
                    (n, omega arith, ground (arith, room, q, l, a)),
                  )
                ]) in
            rw (room, add_oco_pair) (rw (room, add_oco_pair) at w)
      ]

-- The calls; the ids of new orders are fresh, and those of a pair differ and are not 0.
pub data Step : ContingentOrderManager → ContingentOrderManager → Type 0 where
  pair :
      (m : ContingentOrderManager) (a_id limit_price b_id stop_price : ℕ) (is_buy : Bool) (qty : ℕ)
      → 0 < a_id
      → 0 < b_id
      → a_id ≢ b_id
      → Fresh m a_id
      → Fresh m b_id
      → Step m (add_oco_pair m a_id limit_price b_id stop_price is_buy qty).1
  trailing :
      (m : ContingentOrderManager) (id : ℕ) (is_buy : Bool) (price delta qty : ℕ)
      → Fresh m id
      → Step m (add_trailing_stop m id is_buy price delta qty).1
  price : (m : ContingentOrderManager) (price : ℕ) → Step m (on_market_price m price)
  fill : (m : ContingentOrderManager) (id : ℕ) → Step m (on_order_fill m id)
  cancel : (m : ContingentOrderManager) (id : ℕ) → Step m (cancel_order m id)

pub data Reach (m : ContingentOrderManager) : ContingentOrderManager → Type 0 where
  here : Reach m m
  next : {m' m'' : ContingentOrderManager} → Reach m m' → Step m' m'' → Reach m m''

Step-IsManager : {m m' : ContingentOrderManager} → Step m m' → IsManager m → IsManager m'
Step-IsManager (pair m a p b q is_buy qty a_pos b_pos apart fresh_a fresh_b) v =
    add_oco_pair-IsManager m v a p b q is_buy qty a_pos b_pos apart fresh_a fresh_b
Step-IsManager (trailing m id is_buy p delta qty fresh) v =
    add_trailing_stop-IsManager m v id is_buy p delta qty fresh
Step-IsManager (price m p) v = on_market_price-IsManager m p v
Step-IsManager (fill m id) v = on_order_fill-IsManager m id v
Step-IsManager (cancel m id) v = cancel_order-IsManager m id v

Reach-IsManager : {m m' : ContingentOrderManager} → Reach m m' → IsManager m → IsManager m'
Reach-IsManager here v = v
Reach-IsManager (next r s) v = Step-IsManager s (Reach-IsManager r v)

-- After any calls on an empty manager, with fresh ids for new orders and nonzero, different ids for the two
-- of a pair: when an order of a pair is filled, an order in use with its partner's id is not active.
pub Reach-exclusive :
    (m : ContingentOrderManager) (i j : ℕ)
    → Reach contingent_order_manager m
    → i < m.order_count
    → j < m.order_count
    → is_oco (m.orders i).type ≡ true
    → (m.orders j).order_id ≡ (m.orders i).pair_order_id
    → is_filled (m.orders i).state ≡ true
    → is_active (m.orders j).state ≡ false
Reach-exclusive m i j r = (Reach-IsManager r contingent_order_manager-IsManager).exclusive i j
