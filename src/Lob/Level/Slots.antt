-- ===== src/Lob/Level/Slots.antt =====
-- The slots of a price level, luv_lob.hpp: which one is free, and what an order that enters or leaves
-- does to the sums over the active slots.
use fort.Base.{
  ℕ, zero, suc, ◌+◌, ◌≤◌, ◌<◌, ◌≡◌, refl, ◌≢◌, inl, inr, true, false, Option, none, some, arith,
  ◌==◌, update, ==_iff, Bool-cases,
}
use fort.Base.Int.{ℤ, pos, ◌+ℤ◌, ◌<ℤ◌, +ℤ_zero}
use fort.Lob.Level.{
  OrderSlot, PriceLevel, is_active, alloc_from, alloc_slot, link_after, link_slot, unlink_slot,
  max_orders_per_level, set_next, deactivate_slot, fill_slot, free_slot,
}
use fort.Lob.Level.Sums.{
  sum_active, count_active, SameLoad, SameLoad-trans, sum_active-SameLoad, count_active-SameLoad,
  set_next-SameLoad, sum_active-update, count_active-update,
}

-- `alloc_slot` returns the first slot that is not active, and fails only if all are.
alloc_from-some :
    (n i : ℕ) (orders : ℕ → OrderSlot) (k : ℕ)
    → alloc_from n i orders ≡ some k
    → (i ≤ k) × (k < i + n) × (is_active (orders k) ≡ false)
unfolding alloc_from
alloc_from-some zero i orders k h = cc
alloc_from-some (suc n) i orders k h = ground (arith, alloc_from-some n (i + 1) orders k)

pub alloc_from-none :
    (n i : ℕ) (orders : ℕ → OrderSlot) (k : ℕ)
    → alloc_from n i orders ≡ none
    → i ≤ k
    → k < i + n
    → is_active (orders k) ≡ true
unfolding alloc_from
alloc_from-none zero i orders k h l u = absurd (omega arith)
alloc_from-none (suc n) i orders k h l u = elim (Bool-cases (i == k)) [
  | inl e ↦ let p = (==_iff i k).0 e in ground (arith)
  | inr e ↦ ground (arith, alloc_from-none n (i + 1) orders k)
]

pub alloc_slot-some :
    (lvl : PriceLevel) (k : ℕ)
    → alloc_slot lvl ≡ some k
    → (k < max_orders_per_level) × (is_active (lvl.orders k) ≡ false)
unfolding alloc_slot
alloc_slot-some lvl k h = let r = alloc_from-some 16 0 lvl.orders k h in (omega arith, r.2)

link_after-SameLoad :
    (lvl : PriceLevel) (slot : ℕ) (head : Option ℕ)
    → SameLoad (link_after lvl slot head).orders lvl.orders
unfolding link_after
link_after-SameLoad lvl slot none i = ground arith
link_after-SameLoad lvl slot (some head) i = ground arith

module _ (lvl : PriceLevel) (slot : ℕ) where
  pub link_slot-SameLoad : SameLoad (link_slot lvl slot).orders lvl.orders
  unfolding link_slot
  link_slot-SameLoad =
      SameLoad-trans (link_slot lvl slot).orders (set_next lvl.orders slot none) lvl.orders
        (link_after-SameLoad (record lvl { orders = set_next lvl.orders slot none }) slot
          lvl.head_idx)
        (set_next-SameLoad lvl.orders slot none)

  pub unlink_slot-SameLoad : SameLoad (unlink_slot lvl slot).orders lvl.orders
  unfolding unlink_slot
  unlink_slot-SameLoad i = ground arith

-- An accepted order in a free slot.
module _ (lvl : PriceLevel) (slot order_ref : ℕ) (qty : ℤ) (side : ℕ) where
  abbrev pub filled : OrderSlot
  filled = (fill_slot lvl slot order_ref qty side).orders slot

  pub filled-active : (is_active filled ≡ true) × (filled.qty ≡ qty)
  unfolding fill_slot is_active
  filled-active = ground arith

  abbrev pub occupied : ℕ → OrderSlot
  occupied = (link_slot (fill_slot lvl slot order_ref qty side) slot).orders

  pub occupied-SameLoad : SameLoad occupied (update lvl.orders slot filled)
  unfolding fill_slot
  occupied-SameLoad i =
      ground (arith, link_slot-SameLoad (fill_slot lvl slot order_ref qty side) slot i)

  module _ (inside : slot < max_orders_per_level) (free : is_active (lvl.orders slot) ≡ false) where
    pub sum_active-occupied :
        sum_active max_orders_per_level occupied ≡ sum_active max_orders_per_level lvl.orders +ℤ qty
    sum_active-occupied =
        let u = sum_active-update lvl.orders slot filled 16 inside in
        rw (sum_active-SameLoad occupied (update lvl.orders slot filled) occupied-SameLoad 16) (
          ground (arith, u, filled-active, +ℤ_zero (sum_active 16 (update lvl.orders slot filled))))

    pub count_active-occupied :
        count_active max_orders_per_level occupied
        ≡ count_active max_orders_per_level lvl.orders + 1
    count_active-occupied =
        rw (count_active-SameLoad occupied (update lvl.orders slot filled) occupied-SameLoad 16)
          (ground (arith, count_active-update lvl.orders slot filled 16 inside, filled-active))

    pub occupied-positive :
        pos 0 <ℤ qty
        → ((i : ℕ) → is_active (lvl.orders i) ≡ true → pos 0 <ℤ (lvl.orders i).qty)
        → (i : ℕ) → is_active (occupied i) ≡ true
        → pos 0 <ℤ (occupied i).qty
    unfolding is_active
    occupied-positive h p i a = ground (arith, occupied-SameLoad i, filled-active, p i)

-- An order that leaves its slot.
module _ (lvl : PriceLevel) (slot : ℕ) where
  abbrev pub vacated : ℕ → OrderSlot
  vacated = (free_slot lvl slot).orders

  abbrev emptied : OrderSlot
  emptied = deactivate_slot ((unlink_slot lvl slot).orders slot)

  pub vacated-SameLoad : SameLoad vacated (update lvl.orders slot emptied)
  unfolding free_slot
  vacated-SameLoad i = ground (arith, unlink_slot-SameLoad lvl slot i)

  emptied-inactive : is_active emptied ≡ false
  unfolding is_active deactivate_slot
  emptied-inactive = refl

  module _ (inside : slot < max_orders_per_level) (busy : is_active (lvl.orders slot) ≡ true) where
    pub sum_active-vacated :
        sum_active max_orders_per_level vacated +ℤ (lvl.orders slot).qty
        ≡ sum_active max_orders_per_level lvl.orders
    sum_active-vacated =
        let u = sum_active-update lvl.orders slot emptied 16 inside in
        rw (sum_active-SameLoad vacated (update lvl.orders slot emptied) vacated-SameLoad 16)
          (ground (arith, u, emptied-inactive, +ℤ_zero (sum_active 16 lvl.orders)))

    pub count_active-vacated :
        count_active max_orders_per_level vacated + 1 ≡ count_active max_orders_per_level lvl.orders
    count_active-vacated =
        rw (count_active-SameLoad vacated (update lvl.orders slot emptied) vacated-SameLoad 16)
          (ground (arith, count_active-update lvl.orders slot emptied 16 inside, emptied-inactive))

    pub vacated-positive :
        ((i : ℕ) → i ≢ slot → is_active (lvl.orders i) ≡ true → pos 0 <ℤ (lvl.orders i).qty)
        → (i : ℕ) → is_active (vacated i) ≡ true
        → pos 0 <ℤ (vacated i).qty
    unfolding is_active
    vacated-positive p i a = ground (arith, vacated-SameLoad i, emptied-inactive, p i)
