-- ===== src/Lob/Level/Queue.antt =====
-- The time priority of a price level in luv_lob.hpp: its list chains exactly its active slots, an order
-- that enters is the last of it, and one that leaves changes the order of no other.
use fort.Base.{
  ℕ, suc, ◌≤◌, ◌<◌, ◌≡◌, refl, sym, ap, subst, ◌≢◌, inl, inr, true, false, none, some, arith, List,
  [], ◌∷◌, ◌++◌, ◌==◌, if◌then◌else◌, update, Option-cases,
}
use fort.Base.Int.{ℤ}
use fort.Lob.Level.{
  OrderSlot, PriceLevel, is_active, max_orders_per_level, alloc_slot, link_slot, fill_slot,
  free_slot, unlink_slot, unlink_before, unlink_after, deactivate_slot, set_next,
}
use fort.Lob.Level.Sums.{count_active-update}
use fort.Lob.Level.Slots.{
  alloc_slot-some, filled, filled-active, occupied-SameLoad, vacated, vacated-SameLoad,
}
use fort.Lob.Level.Chain.{mem, erase, length, Chain, Chain-frame}
use fort.Lob.Level.Unlink.{Unlinks, Chain-erase, Chain-apart, Chain-prev, Chain-first, skip}
use fort.Lob.Level.Listed.{
  mem_append, distinct_append, mem-erase, distinct-erase, count_active_bound, length-count_active,
  IsQueue, link_after-Chain, link_after-order_id, refs, map_agree, map_append,
}

module _ (lvl : PriceLevel) (slot order_ref : ℕ) (qty : ℤ) (side : ℕ) (is : List ℕ)
    (v : IsQueue lvl is) (free : alloc_slot lvl ≡ some slot) where
  abbrev entered : PriceLevel
  entered = link_slot (fill_slot lvl slot order_ref qty side) slot

  absent : mem slot is ≡ false
  absent = ground (arith, v.holds slot, alloc_slot-some lvl slot free)

  short : suc (length is) ≤ 16
  short =
      let (inside, idle) = alloc_slot-some lvl slot free in
      let u = count_active-update lvl.orders slot (filled lvl slot order_ref qty side) 16 inside in
      let b = count_active_bound 16 (update lvl.orders slot (filled lvl slot order_ref qty side)) in
      ground (
        arith,
        length-count_active is lvl.orders v.once v.holds,
        (filled-active lvl slot order_ref qty side).0,
      )

  -- The links before the slot is chained.
  abbrev unchained : ℕ → OrderSlot
  unchained = set_next (fill_slot lvl slot order_ref qty side).orders slot none

  unchained-kept :
      (j : ℕ)
      → j ≢ slot
      → ((unchained j).next_idx ≡ (lvl.orders j).next_idx)
        × ((unchained j).prev_idx ≡ (lvl.orders j).prev_idx)
  unfolding fill_slot
  unchained-kept j h = ground arith

  unchained-Chain : Chain unchained none lvl.head_idx is
  unchained-Chain =
      Chain-frame lvl.orders unchained none lvl.head_idx is v.chain
        (λ j m. unchained-kept j (λ e. ground (arith, absent, m, e)))

  entered-Chain : Chain entered.orders none entered.head_idx (is ++ slot ∷ [])
  unfolding link_slot fill_slot
  entered-Chain =
      link_after-Chain (record (fill_slot lvl slot order_ref qty side) { orders = unchained }) slot
        lvl.head_idx is unchained-Chain refl (ground arith) absent short v.once

  entered-order_id :
      (j : ℕ)
      → (entered.orders j).order_id ≡ (if j == slot then order_ref else (lvl.orders j).order_id)
  unfolding link_slot fill_slot
  entered-order_id j = ground (
    arith,
    link_after-order_id (record (fill_slot lvl slot order_ref qty side) { orders = unchained }) slot
        lvl.head_idx j,
  )

  -- An order that takes a free slot of a level is chained behind all that are there: the list chains
  -- the active slots again, and the references in time order are those of before, then its own.
  pub entered-IsQueue :
      IsQueue entered (is ++ slot ∷ [])
      × (refs entered (is ++ slot ∷ []) ≡ refs lvl is ++ order_ref ∷ [])
  unfolding is_active
  entered-IsQueue = (
    record {
      chain = entered-Chain;
      once = distinct_append slot is v.once absent;
      holds = λ j. ground (
        arith,
        mem_append j slot is,
        v.holds j,
        occupied-SameLoad lvl slot order_ref qty side j,
        filled-active lvl slot order_ref qty side,
        alloc_slot-some lvl slot free,
      );
    },
    map_append (λ j. (entered.orders j).order_id) (λ j. (lvl.orders j).order_id) slot order_ref is
        (λ j m. ground (arith, entered-order_id j, absent, m))
        (ground (arith, entered-order_id slot)),
  )

module _ (lvl : PriceLevel) (slot : ℕ) (is : List ℕ) (v : IsQueue lvl is)
    (inside : slot < max_orders_per_level) (busy : is_active (lvl.orders slot) ≡ true) where
  present : mem slot is ≡ true
  present = ground (arith, v.holds slot)

  apart : ((lvl.orders slot).next_idx ≢ some slot) × ((lvl.orders slot).prev_idx ≢ some slot)
  apart = Chain-apart lvl.orders slot none lvl.head_idx is v.chain v.once present (λ k h. cc)

  vacated-Unlinks : Unlinks lvl.orders (vacated lvl slot) slot
  unfolding free_slot unlink_slot unlink_before unlink_after deactivate_slot
  vacated-Unlinks = record {
    prev_joined = λ k h. ground (arith, h, apart);
    next_joined = λ k h. ground (arith, h, apart);
    prev_kept = λ k a h. ground (arith, h, a, apart);
    next_kept = λ k a h. ground (arith, h, a, apart);
  }

  vacated-order_id : (j : ℕ) → j ≢ slot → (vacated lvl slot j).order_id ≡ (lvl.orders j).order_id
  unfolding free_slot unlink_slot unlink_before unlink_after deactivate_slot
  vacated-order_id j h = ground (arith, h)

  vacated-head : (free_slot lvl slot).head_idx ≡ skip slot (lvl.orders slot).next_idx lvl.head_idx
  unfolding free_slot unlink_slot unlink_before unlink_after
  vacated-head = elim (Chain-prev lvl.orders slot none lvl.head_idx is v.chain present) [
    | inl (h, g) ↦ ground (arith, h, g)
    | inr (q, m, g) ↦ elim (Option-cases lvl.head_idx) [
      | inl e ↦ ground (arith, g, e)
      | inr (w, e) ↦
          let first =
            Chain-first lvl.orders w none is (subst (λ k. Chain lvl.orders none k is) e v.chain) in
          let other : slot ≢ w =
            λ h. ground (arith, ap (λ x. (lvl.orders x).prev_idx) h, g, first) in
          ground (arith, g, e, other)
    ]
  ]

  -- An order that leaves its slot leaves the list, which chains the other active slots in the order
  -- of before, with the same references.
  pub vacated-IsQueue :
      IsQueue (free_slot lvl slot) (erase slot is)
      × (refs (free_slot lvl slot) (erase slot is) ≡ refs lvl (erase slot is))
  unfolding is_active deactivate_slot
  vacated-IsQueue = (
    record {
      chain =
          subst (λ k. Chain (vacated lvl slot) none k (erase slot is)) (sym vacated-head)
            (Chain-erase lvl.orders (vacated lvl slot) slot vacated-Unlinks none lvl.head_idx is
              v.chain v.once present (λ k h. cc));
      once = distinct-erase slot is v.once;
      holds =
          λ j. ground (arith, mem-erase j slot is v.once, v.holds j, vacated-SameLoad lvl slot j);
    },
    map_agree (λ j. (vacated lvl slot j).order_id) (λ j. (lvl.orders j).order_id) (erase slot is)
        (λ j m. vacated-order_id j (λ h. ground (arith, mem-erase j slot is v.once, m, h))),
  )
