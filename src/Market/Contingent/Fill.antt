-- ===== src/Market/Contingent/Fill.antt =====
-- The fill of an order in luv_contingent_orders.hpp keeps the invariant of the pairs.
use fort.Base.{
  ℕ, zero, suc, ◌+◌, ◌≤◌, ◌<◌, ◌≡◌, inl, inr, sym, ◌∙◌, true, false, ◌&&◌, none, some, arith, ltb,
  ◌==◌, Bool-cases, Option-cases, ==_iff,
}
use fort.Market.Contingent.{
  cancelled, filled, ContingentOrder, ContingentOrderManager, is_active, is_oco, find_active,
  find_id, set_state, cancel_order, on_order_fill,
}
use fort.Market.Contingent.Exclusive.{is_filled, IsManager, Calms, Calms-refl, cancelled-Calms}

find_active-some :
    (n i : ℕ) (f : ℕ → ContingentOrder) (id k : ℕ)
    → find_active n i f id ≡ some k
    → (k < i + n) × ((f k).order_id ≡ id)
unfolding find_active
find_active-some zero i f id k h = cc
find_active-some (suc n) i f id k h = ground (arith, h, find_active-some n (i + 1) f id k)

find_active-none :
    (n i : ℕ) (f : ℕ → ContingentOrder) (id k : ℕ)
    → find_active n i f id ≡ none
    → i ≤ k
    → k < i + n
    → (f k).order_id ≡ id
    → is_active (f k).state ≡ false
unfolding find_active
find_active-none zero i f id k h a b e = absurd (omega (arith, a, b))
find_active-none (suc n) i f id k h a b e = elim (Bool-cases (i == k)) [
  | inl q ↦ let p = (==_iff i k).0 q in let h' = rw p at h in ground (arith, h', e)
  | inr q ↦ ground (arith, h, a, b, q, e, find_active-none n (i + 1) f id k)
]

find_id-some :
    (n i : ℕ) (f : ℕ → ContingentOrder) (id k : ℕ)
    → find_id n i f id ≡ some k
    → (k < i + n) × ((f k).order_id ≡ id)
unfolding find_id
find_id-some zero i f id k h = cc
find_id-some (suc n) i f id k h = ground (arith, h, find_id-some n (i + 1) f id k)

-- The manager after the fill of slot `k`, and after the change of states of the others by `orders`.
module _ (m : ContingentOrderManager) (v : IsManager m) (k : ℕ) (inside : k < m.order_count)
    (orders : ℕ → ContingentOrder)
    (calm : (i : ℕ) → Calms ((set_state m k filled).orders i) (orders i))
    (partner : (j : ℕ)
      → j < m.order_count
      → is_oco (m.orders k).type ≡ true
      → (m.orders j).order_id ≡ (m.orders k).pair_order_id
      → is_active (orders j).state ≡ false) where
  abbrev after_fill : ContingentOrderManager
  after_fill = record m { orders = orders }

  -- But for the state of slot `k`, all is as before, and no order is woken.
  fields :
      (i : ℕ)
      → ((orders i).order_id ≡ (m.orders i).order_id)
        × ((orders i).pair_order_id ≡ (m.orders i).pair_order_id)
        × ((orders i).type ≡ (m.orders i).type)
  fields i =
      let a = (calm i).same_id in
      let b = (calm i).same_pair in
      let c = (calm i).same_type in (ground (arith, a), ground (arith, b), ground (arith, c))

  still_asleep : (i : ℕ) → is_active (m.orders i).state ≡ false → is_active (orders i).state ≡ false
  still_asleep i h = (calm i).no_wake (ground (arith, h))

  was_filled_before :
      (i : ℕ)
      → (i == k) ≡ false
      → is_filled (orders i).state ≡ true
      → is_filled (m.orders i).state ≡ true
  was_filled_before i apart f = ground (arith, apart, f, (calm i).no_fill)

  after_fill-IsManager : IsManager after_fill
  after_fill-IsManager = record {
    bound = v.bound;
    unique = λ i j a b e. v.unique i j a b (sym (fields i).0 ∙ e ∙ (fields j).0);
    paired = λ i a o.
        let (p, other) = v.paired i a (rw (fields i).2 at o) in
        let (j, b, e) = other in (rw (fields i).1 p, (j, b, (fields j).0 ∙ e ∙ sym (fields i).1));
    exclusive = λ i j a b o e f. elim (Bool-cases (i == k)) [
      | inl q ↦
          let at = (==_iff i k).0 q in
          partner j b (rw at at (rw (fields i).2 at o))
            (rw at at (sym (fields j).0 ∙ e ∙ (fields i).1))
      | inr q ↦ still_asleep j (
          v.exclusive i j a b (rw (fields i).2 at o) (sym (fields j).0 ∙ e ∙ (fields i).1)
            (was_filled_before i q f))
    ];
  }

filled-slot :
    (m : ContingentOrderManager) (k j : ℕ)
    → is_active (m.orders j).state ≡ false
    → is_active ((set_state m k filled).orders j).state ≡ false
filled-slot m k j h = ground (arith, h)

pub on_order_fill-IsManager :
    (m : ContingentOrderManager) (id : ℕ) → IsManager m → IsManager (on_order_fill m id)
unfolding on_order_fill
on_order_fill-IsManager m id v = elim (Option-cases (find_id m.order_count 0 m.orders id)) [
  | inl e ↦ rw (e, on_order_fill) v
  | inr (k, e) ↦
      let (inside, same) = find_id-some m.order_count 0 m.orders id k e in
      let m' = set_state m k filled in
      let pair = (m.orders k).pair_order_id in
      elim (Bool-cases (is_oco (m.orders k).type && ltb 0 pair)) [
        | inl both ↦ elim (Option-cases (find_active m.order_count 0 m'.orders pair)) [
          | inl gone ↦
              let w =
                after_fill-IsManager m v k (omega (arith, inside)) m'.orders
                  (λ i. Calms-refl (m'.orders i))
                  (λ j b o f.
                    find_active-none m.order_count 0 m'.orders pair j gone (omega arith)
                      (omega (arith, b)) (ground (arith, f))) in
              rw (e, on_order_fill, both, gone, cancel_order) w
          | inr (p, found) ↦
              let (p_in, p_id) = find_active-some m.order_count 0 m'.orders pair p found in
              let w =
                after_fill-IsManager m v k (omega (arith, inside)) (set_state m' p cancelled).orders
                  (cancelled-Calms m' p)
                  (λ j b o f.
                    let at : j ≡ p =
                      v.unique j p b (omega (arith, p_in)) (f ∙ sym p_id ∙ ground arith) in
                    rw at (ground arith)) in
              rw (e, on_order_fill, both, found, cancel_order) w
        ]
        | inr lone ↦
            let w =
              after_fill-IsManager m v k (omega (arith, inside)) m'.orders
                (λ i. Calms-refl (m'.orders i))
                (λ j b o f.
                  let (p, other) = v.paired k (omega (arith, inside)) o in
                  absurd (ground (arith, lone, o, p))) in
            rw (e, on_order_fill, lone) w
      ]
]
