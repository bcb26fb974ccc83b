-- ===== src/Lob/RefMap/Indexed.antt =====
-- What an indexed OrderRefMap of luv_lob.hpp is, and how it stays one.
use fort.Base.{
  ℕ, ◌≤◌, ◌≡◌, refl, sym, ap, subst, ◌∙◌, ◌≢◌, ◌⊎◌, inl, inr, Bool, true, false, ◌&&◌, Option, none,
  some, arith, ◌==◌, if◌then◌else◌, update, ==_iff, Bool-cases, Option-cases, leb,
}
use mathlib.Core.Bool.{false≢true}
use fort.Lob.RefMap.{
  OrderRefMap, OrderLocation, init, find_slot, slot_of, lookup, insert_at, insert_probe, write,
  Probed, hit, gap, spent, hash, is_reserved, max_probe_length, max_entries, empty_key, tombstone,
}
use fort.Lob.RefMap.Probe.{
  Offers, find_slot-some, find_slot-update_ne, insert_probe-hit, insert_probe-absent,
  insert_probe-Offers,
}

-- Every key in the table is found by a probe, at its own slot, and the table is within its load.
pub record IsIndexed (m : OrderRefMap) : Type 0 where
  pub reach :
      (t : ℕ)
      → is_reserved (m.keys t) ≡ false
      → find_slot max_probe_length m.keys (hash (m.keys t)) (m.keys t) ≡ some t
  pub bounded : m.count ≤ max_entries

-- A table of the source that was just mapped.
pub init-IsIndexed : (m : OrderRefMap) → m.mapped ≡ false → IsIndexed (init true m).1
unfolding init
init-IsIndexed m h = rw h (record { reach = λ t live. cc; bounded = omega arith })

module _ (m : OrderRefMap) (v : IsIndexed m) where
  -- A write over slot `u` that neither hides nor adds the key `j` leaves what a probe for `j` finds.
  pub find_slot-write :
      (u k j : ℕ)
      → is_reserved j ≡ false
      → m.keys u ≢ j
      → k ≢ j
      → k ≢ empty_key
      → find_slot max_probe_length (update m.keys u k) (hash j) j
        ≡ find_slot max_probe_length m.keys (hash j) j
  find_slot-write u k j live a b c =
      elim (Option-cases (find_slot max_probe_length m.keys (hash j) j)) [
        | inr (t, e) ↦ rw e (find_slot-update_ne max_probe_length m.keys (hash j) j t u k a b c e)
        | inl e ↦ rw e (still_absent e (Option-cases _))
      ]
    where
      still_absent :
          find_slot max_probe_length m.keys (hash j) j ≡ none
          → let o = find_slot max_probe_length (update m.keys u k) (hash j) j in
            (o ≡ none) ⊎ ((t : ℕ) × (o ≡ some t))
            → find_slot max_probe_length (update m.keys u k) (hash j) j ≡ none
      still_absent e (inl p) = p
      still_absent e (inr (t, p)) =
          let q = find_slot-some max_probe_length (update m.keys u k) (hash j) j t p in
          let r : m.keys t ≡ j = ground arith in
          let w =
            subst (λ x. find_slot max_probe_length m.keys (hash x) x ≡ some t) r
              (v.reach t (rw r live)) in
          cc

  -- A key stands in one slot only.
  pub reach_once :
      (t j : ℕ)
      → is_reserved j ≡ false
      → m.keys t ≡ j
      → find_slot max_probe_length m.keys (hash j) j ≡ some t
  reach_once t j live p =
      subst (λ x. find_slot max_probe_length m.keys (hash x) x ≡ some t) p (v.reach t (rw p live))

  module _ (u key : ℕ) (live : is_reserved key ≡ false) (vacant : is_reserved (m.keys u) ≡ true)
      (absent : find_slot max_probe_length m.keys (hash key) key ≡ none)
      (found : find_slot max_probe_length (update m.keys u key) (hash key) key ≡ some u) where
    written_reach :
        (t : ℕ)
        → is_reserved (update m.keys u key t) ≡ false
        → find_slot max_probe_length
            (update m.keys u key)
            (hash (update m.keys u key t))
            (update m.keys u key t)
          ≡ some t
    written_reach t lt = elim (Bool-cases (t == u)) [
      | inl e ↦ rw e (found ∙ ap some (sym ((==_iff t u).0 e)))
      | inr e ↦
          let lk : is_reserved (m.keys t) ≡ false = ground arith in
          let apart : key ≢ m.keys t = λ p. cc (absent, reach_once t key live (sym p)) in
          rw e (
            find_slot-write u key (m.keys t) lk (λ p. ground (arith, vacant, lk, p)) apart
              (λ p. ground (arith, live, p))
            ∙ v.reach t lk)
    ]

  module _ (u key : ℕ) (live : is_reserved key ≡ false) (held : m.keys u ≡ key) where
    pub removed_reach :
        (t : ℕ)
        → is_reserved (update m.keys u tombstone t) ≡ false
        → find_slot max_probe_length
            (update m.keys u tombstone)
            (hash (update m.keys u tombstone t))
            (update m.keys u tombstone t)
          ≡ some t
    removed_reach t lt = elim (Bool-cases (t == u)) [
      | inl e ↦ absurd (false≢true (ground arith))
      | inr e ↦
          let lk : is_reserved (m.keys t) ≡ false = ground arith in
          let apart : m.keys u ≢ m.keys t =
            λ p. ground (arith, reach_once t key live (sym p ∙ held), reach_once u key live held) in
          rw e (
            find_slot-write u tombstone (m.keys t) lk apart (λ p. ground (arith, lk, p))
              (λ p. absurd (omega arith))
            ∙ v.reach t lk)
    ]

  module _ (key : ℕ) (loc : OrderLocation) (live : is_reserved key ≡ false) where
    abbrev pub outcome : Probed
    outcome = insert_probe max_probe_length m.keys (hash key) key none

    write-IsIndexed : (u : ℕ) → Offers outcome u → IsIndexed (write m u key loc).1
    unfolding write
    write-IsIndexed u o =
        let (vacant, found) = insert_probe-Offers max_probe_length m.keys (hash key) key u o in
        let absent = insert_probe-absent max_probe_length m.keys (hash key) key u none o in
        elim (Bool-cases (leb max_entries m.count)) [
          | inl full ↦ rw full v
          | inr room ↦ rw room (record {
            reach = written_reach u key live vacant absent found;
            bounded = ground arith;
          })
        ]

    pub insert_at-IsIndexed : (p : Probed) → outcome ≡ p → IsIndexed (insert_at m key loc p).1
    unfolding insert_at
    insert_at-IsIndexed (hit slot) e = record { reach = v.reach; bounded = v.bounded }
    insert_at-IsIndexed (gap u) e = write-IsIndexed u (inl e)
    insert_at-IsIndexed (spent (some u)) e = write-IsIndexed u (inr e)
    insert_at-IsIndexed (spent none) e = v

    abbrev pub expected : Bool → ℕ → Option OrderLocation
    expected written j = if written && key == j then some loc else lookup m j

    lookup-write :
        m.mapped ≡ true
        → (u : ℕ) → Offers outcome u
        → (j : ℕ) → lookup (write m u key loc).1 j ≡ expected (write m u key loc).0 j
    unfolding write lookup slot_of
    lookup-write mapped u o j =
        let (vacant, found) = insert_probe-Offers max_probe_length m.keys (hash key) key u o in
        elim (Bool-cases (key == j)) [
          | inl e ↦ let p = (==_iff key j).0 e in rw (← p) (ground (arith, live, found, mapped))
          | inr e ↦
              ground (
                arith,
                find_slot-write u key j,
                find_slot-some max_probe_length m.keys (hash j) j u,
              )
        ]

    lookup-hit :
        m.mapped ≡ true
        → (u : ℕ) → outcome ≡ hit u
        → (j : ℕ) → lookup (record m { values = update m.values u loc }) j ≡ expected true j
    unfolding lookup slot_of
    lookup-hit mapped u o j =
        let found = insert_probe-hit max_probe_length m.keys (hash key) key u none o in
        let held = find_slot-some max_probe_length m.keys (hash key) key u found in
        elim (Bool-cases (key == j)) [
          | inl e ↦ let p = (==_iff key j).0 e in rw (← p) (ground (arith, live, found, mapped))
          | inr e ↦ ground (arith, held, find_slot-some max_probe_length m.keys (hash j) j u)
        ]

    pub lookup-insert_at :
        m.mapped ≡ true
        → (p : Probed) → outcome ≡ p
        → (j : ℕ) → lookup (insert_at m key loc p).1 j ≡ expected (insert_at m key loc p).0 j
    unfolding insert_at
    lookup-insert_at mapped (hit u) e j = lookup-hit mapped u e j
    lookup-insert_at mapped (gap u) e j = lookup-write mapped u (inl e) j
    lookup-insert_at mapped (spent (some u)) e j = lookup-write mapped u (inr e) j
    lookup-insert_at mapped (spent none) e j = refl
