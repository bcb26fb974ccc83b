-- ===== src/Itch/Symbols/Probe.antt =====
-- The two loops of SymbolTable in luv_decode_itch.hpp, by the distance of a slot from where they start;
-- and that as many slots in a row as are occupied fit into the count.
use fort.Base.{
  ℕ, zero, suc, ◌+◌, ◌%◌, ◌≤◌, ◌<◌, ◌≡◌, ◌≢◌, ◌⊎◌, inl, inr, refl, true, false, some, none, arith,
  ◌==◌, if◌then◌else◌, update, Bool-cases, ==_iff,
}
use fort.Itch.Symbols.{SymbolTable, not_found, table_capacity, next_slot, insert_slot, lookup_from}

-- The slot at distance `d` from slot `h`.
abbrev pub slot_at : ℕ → ℕ → ℕ
slot_at h d = (h + d) % table_capacity

abbrev pub Occupied : SymbolTable → ℕ → Type 0
Occupied t slot = (t.values slot == not_found) ≡ false

-- A slot that a probe for `key` passes.
abbrev pub Passed : SymbolTable → ℕ → ℕ → Type 0
Passed t key slot = Occupied t slot × ((t.keys slot == key) ≡ false)

slot_next : (h e : ℕ) → slot_at (next_slot h) e ≡ slot_at h (e + 1)
slot_next h e = omega arith

module _ (t : SymbolTable) (key : ℕ) where
  pub lookup_from-hit :
      (n d h : ℕ)
      → h < table_capacity
      → d < n
      → ((e : ℕ) → e < d → Passed t key (slot_at h e))
      → Occupied t (slot_at h d)
      → (t.keys (slot_at h d) == key) ≡ true
      → lookup_from n t key h ≡ t.values (slot_at h d)
  unfolding lookup_from
  lookup_from-hit zero d h small less before there same = absurd (omega arith)
  lookup_from-hit (suc n) zero h small less before there same =
      let at : slot_at h 0 ≡ h = omega arith in
      let there' = rw at at there in let same' = rw at at same in rw (at, there', same') refl
  lookup_from-hit (suc n) (suc d) h small less before there same =
      let (a, b) = before 0 (omega arith) in
      let at : slot_at h 0 ≡ h = omega arith in
      let a' = rw at at a in
      let b' = rw at at b in
      let on : slot_at (next_slot h) d ≡ slot_at h (suc d) = omega arith in
      let w =
        lookup_from-hit n d (next_slot h) (omega arith) (omega arith)
          (λ e l. rw (slot_next h e) (before (e + 1) (omega arith))) (rw on there) (rw on same) in
      rw (a', b') (rw on at w)

  -- What a lookup that finds something has met.
  pub record Hit (n h : ℕ) : Type 0 where
    pub distance : ℕ
    pub near : distance < n
    pub before : (e : ℕ) → e < distance → Passed t key (slot_at h e)
    pub there : Occupied t (slot_at h distance)
    pub same : (t.keys (slot_at h distance) == key) ≡ true

  -- One more slot in front of a run of passed slots.
  Passed-cons :
      (h d : ℕ)
      → h < table_capacity
      → Passed t key h
      → ((e : ℕ) → e < d → Passed t key (slot_at (next_slot h) e))
      → (e : ℕ) → e < suc d
      → Passed t key (slot_at h e)
  Passed-cons h d small first rest zero l = let at : slot_at h 0 ≡ h = omega arith in rw at first
  Passed-cons h d small first rest (suc e) l =
      let at : slot_at (next_slot h) e ≡ slot_at h (suc e) = omega arith in
      rw at at (rest e (omega arith))

  pub lookup_from-Hit : (n h : ℕ) → h < table_capacity → lookup_from n t key h ≢ not_found → Hit n h
  unfolding lookup_from
  lookup_from-Hit zero h small found = absurd (found refl)
  lookup_from-Hit (suc n) h small found = elim (Bool-cases (t.values h == not_found)) [
    | inl gone ↦ absurd (found (rw gone refl))
    | inr full ↦ elim (Bool-cases (t.keys h == key)) [
      | inl same ↦
          let at : slot_at h 0 ≡ h = omega arith in
          record {
            distance = 0;
            near = omega arith;
            before = λ e l. absurd (omega (arith, l));
            there = rw at full;
            same = rw at same;
          }
      | inr other ↦
          let w = lookup_from-Hit n (next_slot h) (omega arith) (λ e. found (rw (full, other) e)) in
          let at : slot_at (next_slot h) w.distance ≡ slot_at h (suc w.distance) = omega arith in
          record {
            distance = suc w.distance;
            near = omega (arith, w.near);
            before = Passed-cons h w.distance small (full, other) w.before;
            there = rw at at w.there;
            same = rw at at w.same;
          }
    ]
  ]

  -- Where `insert` stops: at a free slot or at the key, and it has passed all slots before.
  pub record Stop (n h slot : ℕ) : Type 0 where
    pub distance : ℕ
    pub near : distance < n
    pub before : (e : ℕ) → e < distance → Passed t key (slot_at h e)
    pub reached : slot ≡ slot_at h distance
    pub good : ((t.values slot == not_found) ≡ true) ⊎ ((t.keys slot == key) ≡ true)

  pub insert_slot-Stop :
      (n h slot : ℕ) → h < table_capacity → insert_slot n t key h ≡ some slot → Stop n h slot
  unfolding insert_slot
  insert_slot-Stop zero h slot small e = cc
  insert_slot-Stop (suc n) h slot small e = elim (Bool-cases (t.values h == not_found)) [
    | inl gone ↦
        let s : slot ≡ h = ground (arith, gone, e) in
        record {
          distance = 0;
          near = omega arith;
          before = λ e l. absurd (omega (arith, l));
          reached = omega (arith, s);
          good = inl (rw s gone);
        }
    | inr full ↦ elim (Bool-cases (t.keys h == key)) [
      | inl same ↦
          let s : slot ≡ h = ground (arith, full, same, e) in
          record {
            distance = 0;
            near = omega arith;
            before = λ e l. absurd (omega (arith, l));
            reached = omega (arith, s);
            good = inr (rw s same);
          }
      | inr other ↦
          let w = insert_slot-Stop n (next_slot h) slot (omega arith) (rw (full, other) at e) in
          record {
            distance = suc w.distance;
            near = omega (arith, w.near);
            before = Passed-cons h w.distance small (full, other) w.before;
            reached = omega (arith, w.reached);
            good = w.good;
          }
    ]
  ]

  -- A probe that goes nowhere has passed every slot.
  pub insert_slot-none :
      (n h : ℕ)
      → h < table_capacity
      → insert_slot n t key h ≡ none
      → (e : ℕ) → e < n
      → Passed t key (slot_at h e)
  unfolding insert_slot
  insert_slot-none zero h small none_left = λ e l. absurd (omega (arith, l))
  insert_slot-none (suc n) h small none_left = elim (Bool-cases (t.values h == not_found)) [
    | inl gone ↦ cc (rw gone at none_left)
    | inr full ↦ elim (Bool-cases (t.keys h == key)) [
      | inl same ↦ cc (rw (full, same) at none_left)
      | inr other ↦
          Passed-cons h n small (full, other)
            (insert_slot-none n (next_slot h) (omega arith) (rw (full, other) at none_left))
    ]
  ]

-- Occupied slots among the first `n`.
unfoldable pub occupied : ℕ → (ℕ → ℕ) → ℕ
occupied zero f = 0
occupied (suc n) f = occupied n f + (if f n == not_found then 0 else 1)

occupied-outside : (n i v : ℕ) (f : ℕ → ℕ) → n ≤ i → occupied n (update f i v) ≡ occupied n f
unfolding occupied
occupied-outside zero i v f h = refl
occupied-outside (suc n) i v f h = ground (arith, occupied-outside n i v f)

abbrev pub one_if : ℕ → ℕ
one_if v = if v == not_found then 0 else 1

pub occupied-update :
    (n i v : ℕ) (f : ℕ → ℕ)
    → i < n
    → occupied n (update f i v) + one_if (f i) ≡ occupied n f + one_if v
unfolding occupied
occupied-update zero i v f h = absurd (omega arith)
occupied-update (suc n) i v f h = elim (Bool-cases (n == i)) [
  | inl q ↦
      let p = (==_iff n i).0 q in rw (q, p, occupied-outside i i v f (omega arith)) (omega arith)
  | inr q ↦ rw (q) (omega (arith, occupied-update n i v f (ground (arith, q, h))))
]

pub occupied-empty : (n : ℕ) → occupied n (λ i. not_found) ≡ 0
unfolding occupied
occupied-empty zero = refl
occupied-empty (suc n) = omega (arith, occupied-empty n)

-- A run of occupied slots is no longer than the number of occupied slots.
pub run-le-occupied :
    (d h : ℕ) (f : ℕ → ℕ)
    → d ≤ table_capacity
    → ((e : ℕ) → e < d → (f (slot_at h e) == not_found) ≡ false)
    → d ≤ occupied table_capacity f
run-le-occupied zero h f small full = omega arith
run-le-occupied (suc d) h f small full =
    let i = slot_at h d in
    let f' = update f i not_found in
    let full' : (e : ℕ) → e < d → (f' (slot_at h e) == not_found) ≡ false = λ e l.
      let apart : (slot_at h e == i) ≡ false = ground arith in rw apart (full e (omega arith)) in
    let w = run-le-occupied d h f' (omega arith) full' in
    let u = occupied-update table_capacity i not_found f (omega arith) in
    ground (arith, w, u, full d)
