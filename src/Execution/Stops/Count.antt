-- ===== src/Execution/Stops/Count.antt =====
-- The count of StopOrderTable in luv_execution.hpp is that of its active triggers, over all its calls.
use fort.Base.{
  ℕ, zero, suc, ◌+◌, ◌≤◌, ◌<◌, ◌≡◌, inl, inr, refl, Bool, not, ◌||◌, Option, none, some, arith, ltb,
  leb, ◌==◌, if◌then◌else◌, Bool-cases, Option-cases, update, ==_iff,
}
use fort.Base.Int.{ℤ, pos, ltb_ℤ}
use fort.Lob.RefMap.{symbols}
use fort.Execution.Risk.{OrderIntent}
use fort.Execution.Stops.{
  ConditionalOrder, OutboundPacket, StopOrderTable, Scan, max_triggers, no_trigger, free_trigger,
  register_trigger, find_trigger, deactivate, cancel_trigger, order_price, intent_of, route, visit,
  visit_from, evaluate_bbo,
}

abbrev pub on : ConditionalOrder → ℕ
on o = if o.active == 0 then 0 else 1

-- The active ones of the first `n` triggers.
unfoldable pub active_below : ℕ → (ℕ → ConditionalOrder) → ℕ
active_below zero triggers = 0
active_below (suc n) triggers = active_below n triggers + on (triggers n)

active_below-outside :
    (n i : ℕ) (f : ℕ → ConditionalOrder) (o : ConditionalOrder)
    → n ≤ i
    → active_below n (update f i o) ≡ active_below n f
unfolding active_below
active_below-outside zero i f o h = refl
active_below-outside (suc n) i f o h = ground (arith, active_below-outside n i f o)

pub active_below-update :
    (n i : ℕ) (f : ℕ → ConditionalOrder) (o : ConditionalOrder)
    → i < n
    → active_below n (update f i o) + on (f i) ≡ active_below n f + on o
unfolding active_below
active_below-update zero i f o h = absurd (omega arith)
active_below-update (suc n) i f o h = elim (Bool-cases (n == i)) [
  | inl q ↦
      let p = (==_iff n i).0 q in
      rw (q, p, active_below-outside i i f o (omega arith)) (omega arith)
  | inr q ↦ rw (q) (omega (arith, active_below-update n i f o (ground (arith, q, h))))
]

active_below-bound : (n : ℕ) (f : ℕ → ConditionalOrder) → active_below n f ≤ n
unfolding active_below
active_below-bound zero f = omega arith
active_below-bound (suc n) f = ground (arith, active_below-bound n f)

pub active_below-empty : (n : ℕ) → active_below n (λ i. no_trigger) ≡ 0
unfolding active_below
active_below-empty zero = refl
active_below-empty (suc n) = omega (arith, active_below-empty n)

-- The table's count is that of its active triggers.
pub record IsTable (t : StopOrderTable) : Type 0 where
  pub counted : t.active_count ≡ active_below max_triggers t.triggers

free_trigger-some :
    (n i : ℕ) (f : ℕ → ConditionalOrder) (k : ℕ)
    → free_trigger n i f ≡ some k
    → (k < i + n) × (on (f k) ≡ 0)
unfolding free_trigger
free_trigger-some zero i f k h = cc
free_trigger-some (suc n) i f k h = ground (arith, free_trigger-some n (i + 1) f k)

find_trigger-some :
    (n i : ℕ) (f : ℕ → ConditionalOrder) (id k : ℕ)
    → find_trigger n i f id ≡ some k
    → (k < i + n) × (on (f k) ≡ 1)
unfolding find_trigger
find_trigger-some zero i f id k h = cc
find_trigger-some (suc n) i f id k h = ground (arith, find_trigger-some n (i + 1) f id k)

pub deactivate-IsTable :
    (t : StopOrderTable) (i : ℕ)
    → IsTable t
    → i < max_triggers
    → on (t.triggers i) ≡ 1
    → IsTable (deactivate t i) × ((deactivate t i).active_count + 1 ≡ t.active_count)
unfolding deactivate
deactivate-IsTable t i v h o =
    let c = v.counted in
    let u =
      active_below-update max_triggers i t.triggers (record (t.triggers i) { active = 0 }) h in
    (record { counted = ground (arith, c, u, o) }, ground (arith, c, u, o))

pub register_trigger-IsTable :
    (t : StopOrderTable) (order : ConditionalOrder)
    → IsTable t
    → let (ok, t') = register_trigger t order in
      IsTable t' × (t'.active_count ≡ t.active_count + (if ok then 1 else 0))
unfolding register_trigger
register_trigger-IsTable t order v = elim (Option-cases (free_trigger max_triggers 0 t.triggers)) [
  | inl e ↦ rw (e) ground (arith, v)
  | inr (i, e) ↦
      let (small, off) = free_trigger-some max_triggers 0 t.triggers i e in
      let c = v.counted in
      let o = record order { active = 1; trigger_id = i + 1 } in
      let u = active_below-update max_triggers i t.triggers o small in
      let b = active_below-bound max_triggers t.triggers in rw (e) ground (arith, v, c, u, off, b)
]

pub cancel_trigger-IsTable :
    (t : StopOrderTable) (id : ℕ)
    → IsTable t
    → let (ok, t') = cancel_trigger t id in
      IsTable t' × (t'.active_count + (if ok then 1 else 0) ≡ t.active_count)
unfolding cancel_trigger
cancel_trigger-IsTable t id v = elim (Option-cases (find_trigger max_triggers 0 t.triggers id)) [
  | inl e ↦ rw (e) ground (arith, v)
  | inr (i, e) ↦
      let (small, is_on) = find_trigger-some max_triggers 0 t.triggers id i e in
      let (v', c) = deactivate-IsTable t i v small is_on in rw (e) ground (arith, v, v', c)
]

-- What the loop keeps: the table, the room for packets, and each packet that it routed is one
-- active trigger less.
pub record IsScan {G : Type 0} (max_packets total : ℕ) (s : Scan G) : Type 0 where
  pub table : IsTable s.table
  pub balance : s.table.active_count + s.routed ≡ total
  pub room : s.routed ≤ max_packets

module _ {G : Type 0}
    (try_build : G → OrderIntent → OutboundPacket → Bool × OutboundPacket × G) where
  pub route-IsScan :
      (max_packets total i : ℕ) (intent : OrderIntent) (s : Scan G)
      → IsScan max_packets total s
      → s.routed < max_packets
      → i < max_triggers
      → on (s.table.triggers i) ≡ 1
      → IsScan max_packets total (route try_build i intent s)
  unfolding route
  route-IsScan max_packets total i intent s v room h o =
      let (pass, packet, gateway) = try_build s.gateway intent (s.packets s.routed) in
      let (v', c) = deactivate-IsTable s.table i v.table h o in
      let b = v.balance in
      elim (Bool-cases pass) [
        | inl q ↦
            rw (q)
              (record { table = v'; balance = omega (arith, b, c); room = omega (arith, room) })
        | inr q ↦ rw (q) (record { table = v.table; balance = b; room = v.room })
      ]

  module _ (max_packets symbol : ℕ) (best_bid best_ask : ℤ) (now total : ℕ) where
    pub visit-IsScan :
        (i : ℕ) (s : Scan G)
        → IsScan max_packets total s
        → s.routed < max_packets
        → i < max_triggers
        → IsScan max_packets total (visit try_build symbol best_bid best_ask now i s)
    unfolding visit
    visit-IsScan i s v room h =
        let o = s.table.triggers i in
        elim (Bool-cases (o.active == 0 || not (o.symbol_idx == symbol))) [
          | inl q ↦ rw (q) v
          | inr q ↦ elim (Option-cases (order_price o best_bid best_ask)) [
            | inl e ↦ rw (q, e) v
            | inr (price, e) ↦ elim (Bool-cases (ltb_ℤ (pos 0) price)) [
              | inl g ↦
                  let w =
                    route-IsScan max_packets total i (intent_of o price now) s v room h
                      (ground (arith, q)) in
                  rw (q, e, g) w
              | inr g ↦ rw (q, e, g) v
            ]
          ]
        ]

    visit_from-IsScan :
        (n i : ℕ) (s : Scan G)
        → IsScan max_packets total s
        → i + n ≤ max_triggers
        → IsScan max_packets total
            (visit_from try_build max_packets symbol best_bid best_ask now n i s)
    unfolding visit_from
    visit_from-IsScan zero i s v h = v
    visit_from-IsScan (suc n) i s v h = elim (Bool-cases (ltb s.routed max_packets)) [
      | inl q ↦
          let v' = visit-IsScan i s v (ground (arith, q)) (omega arith) in
          let w =
            visit_from-IsScan n (i + 1) (visit try_build symbol best_bid best_ask now i s) v'
              (omega arith) in
          rw (q) w
      | inr q ↦ rw (q) v
    ]

  -- `evaluate_bbo` of a table whose count is that of its active triggers keeps that, routes no more
  -- orders than there is room for packets, and deactivates one trigger for each, whatever the
  -- gateway does.
  pub evaluate_bbo-IsTable :
      (t : StopOrderTable) (symbol : ℕ) (best_bid best_ask : ℤ) (now : ℕ) (gateway : G)
      (packets : Option (ℕ → OutboundPacket)) (max_packets : ℕ)
      → IsTable t
      → let (routed, _, _, t') =
          evaluate_bbo try_build t symbol best_bid best_ask now gateway packets max_packets in
        IsTable t' × (routed ≤ max_packets) × (t'.active_count + routed ≡ t.active_count)
  unfolding evaluate_bbo
  evaluate_bbo-IsTable t symbol best_bid best_ask now gateway none max_packets v =
      (v, omega arith, omega arith)
  evaluate_bbo-IsTable t symbol best_bid best_ask now gateway (some packets) max_packets v =
      let s : Scan G = record { routed = 0; gateway = gateway; packets = packets; table = t } in
      let w =
        visit_from-IsScan max_packets symbol best_bid best_ask now t.active_count max_triggers 0 s
          (record { table = v; balance = omega arith; room = omega arith }) (omega arith) in
      elim (Bool-cases (leb symbols symbol || t.active_count == 0 || max_packets == 0)) [
        | inl q ↦ rw (q) (v, omega arith, omega arith)
        | inr q ↦ rw (q) (w.table, w.room, w.balance)
      ]
