-- ===== src/Lob/Level/Enter.antt =====
-- An order that enters a level of luv_lob.hpp keeps the level consistent.
use fort.Base.{
  List, [], ◌∷◌, ◌++◌, ℕ, ◌+◌, ◌-◌, ◌<◌, ◌≡◌, refl, sym, ap, ◌∙◌, ◌≢◌, true, Option, none, some,
  arith,
}
use fort.Base.Int.{ℤ, pos, ◌+ℤ◌, ◌≤ℤ◌, ◌<ℤ◌, cancel_right, +ℤ_parts, pos_part, neg_part, int64_max}
use fort.Numeric.{checked_add, max_quantity}
use fort.Numeric.Checked.{checked_add_exact}
use fort.Lob.Level.{
  PriceLevel, is_active, alloc_slot, link_after, link_slot, unlink_slot, max_orders_per_level,
  fill_slot, free_slot, set_next,
}
use fort.Lob.Level.Sums.{sum_active, count_active, sum_active_nonneg}
use fort.Lob.Level.Slots.{
  alloc_slot-some, filled-active, occupied-SameLoad, sum_active-occupied, count_active-occupied,
  occupied-positive, vacated, sum_active-vacated, count_active-vacated, vacated-positive,
}
use fort.Lob.Level.Queue.{entered-IsQueue, vacated-IsQueue}
use fort.Lob.Level.Listed.{IsQueue}
use fort.Lob.Level.Chain.{erase}
use fort.Lob.Level.Consistent.{IsConsistent}

-- The links and the slots change, the other fields of the level do not.
link_after-fields :
    (lvl : PriceLevel) (slot : ℕ) (head : Option ℕ)
    → let r = link_after lvl slot head in
      (r.price ≡ lvl.price) × (r.total_qty ≡ lvl.total_qty) × (r.order_count ≡ lvl.order_count)
unfolding link_after
link_after-fields lvl slot none = (refl, refl, refl)
link_after-fields lvl slot (some head) = (refl, refl, refl)

module _ (lvl : PriceLevel) (slot : ℕ) where
  pub link_slot-fields :
      let r = link_slot lvl slot in
      (r.price ≡ lvl.price) × (r.total_qty ≡ lvl.total_qty) × (r.order_count ≡ lvl.order_count)
  unfolding link_slot
  link_slot-fields =
      link_after-fields (record lvl { orders = set_next lvl.orders slot none }) slot lvl.head_idx

  pub free_slot-fields :
      let r = free_slot lvl slot in
      (r.price ≡ lvl.price) × (r.total_qty ≡ lvl.total_qty) × (r.order_count ≡ lvl.order_count)
  unfolding free_slot unlink_slot
  free_slot-fields = ground arith

-- A level whose slot `slot` is about to be freed: it may hold a quantity of 0 by now.
pub record IsPending (lvl : PriceLevel) (slot : ℕ) : Type 0 where
  pub inside : slot < max_orders_per_level
  pub busy : is_active (lvl.orders slot) ≡ true
  pub total : lvl.total_qty ≡ sum_active max_orders_per_level lvl.orders
  pub counted : lvl.order_count ≡ count_active max_orders_per_level lvl.orders
  pub positive : (i : ℕ) → i ≢ slot → is_active (lvl.orders i) ≡ true → pos 0 <ℤ (lvl.orders i).qty
  pub nonneg : pos 0 ≤ℤ (lvl.orders slot).qty
  pub fits : lvl.total_qty ≤ℤ int64_max
  pub queued : (is : List ℕ) × IsQueue lvl is

module _ (lvl : PriceLevel) (slot : ℕ) where
  pub IsConsistent-IsPending :
      IsConsistent lvl
      → slot < max_orders_per_level
      → is_active (lvl.orders slot) ≡ true
      → IsPending lvl slot
  IsConsistent-IsPending c h a = record {
    inside = h;
    busy = a;
    total = c.total;
    counted = c.counted;
    positive = λ i _. c.positive i;
    nonneg = omega (arith, c.positive slot a);
    fits = c.fits;
    queued = c.queued;
  }

  -- The order of a slot leaves, with its quantity.
  pub free_slot-IsConsistent :
      (total : ℤ)
      → IsPending lvl slot
      → total +ℤ (lvl.orders slot).qty ≡ lvl.total_qty
      → IsConsistent
          (record (free_slot lvl slot) { total_qty = total; order_count = lvl.order_count - 1 })
  free_slot-IsConsistent total p e = record {
    total =
        cancel_right total (sum_active 16 (vacated lvl slot)) (lvl.orders slot).qty
          (e ∙ p.total ∙ sym (sum_active-vacated lvl slot p.inside p.busy));
    counted = omega (arith, p.counted, count_active-vacated lvl slot p.inside p.busy);
    positive = vacated-positive lvl slot p.inside p.busy p.positive;
    fits = omega (
      arith,
      p.fits,
      p.nonneg,
      +ℤ_parts total (lvl.orders slot).qty,
      ap pos_part e,
      ap neg_part e,
    );
    queued =
        let (is, q) = p.queued in
        let v = (vacated-IsQueue lvl slot is q p.inside p.busy).0 in
        (erase slot is, record { chain = v.chain; once = v.once; holds = v.holds });
  }

-- An order enters the first free slot of the level.
module _ (lvl : PriceLevel) (slot order_ref : ℕ) (qty : ℤ) (side : ℕ) (c : IsConsistent lvl)
    (free : alloc_slot lvl ≡ some slot) (positive : pos 0 <ℤ qty)
    (small : qty ≤ℤ max_quantity) where
  abbrev pub linked : PriceLevel
  linked = link_slot (fill_slot lvl slot order_ref qty side) slot

  pub linked-fields :
      (linked.price ≡ lvl.price)
      × (linked.total_qty ≡ lvl.total_qty)
      × (linked.order_count ≡ lvl.order_count)
  unfolding fill_slot
  linked-fields = link_slot-fields (fill_slot lvl slot order_ref qty side) slot

  pub slot_inside : slot < max_orders_per_level
  slot_inside = (alloc_slot-some lvl slot free).0

  pub slot_taken : (is_active (linked.orders slot) ≡ true) × ((linked.orders slot).qty ≡ qty)
  unfolding is_active
  slot_taken = ground (
    arith,
    occupied-SameLoad lvl slot order_ref qty side slot,
    filled-active lvl slot order_ref qty side,
  )

  -- With the total that `checked_add` returns and one more order the level is consistent.
  pub linked-IsConsistent :
      (total : ℤ)
      → checked_add lvl.total_qty qty ≡ some total
      → IsConsistent (record linked { total_qty = total; order_count = lvl.order_count + 1 })
  linked-IsConsistent total e =
      let unused = (alloc_slot-some lvl slot free).1 in
      let lower = sum_active_nonneg lvl.orders c.positive 16 in
      let (p, q) =
        (checked_add_exact lvl.total_qty qty (ground (arith, c.total, c.fits, lower))
            (omega arith)).2
          total e in
      record {
        total =
            p
            ∙ ap (λ t. t +ℤ qty) c.total
            ∙ sym (sum_active-occupied lvl slot order_ref qty side slot_inside unused);
        counted = omega (
          arith,
          c.counted,
          count_active-occupied lvl slot order_ref qty side slot_inside unused,
        );
        positive =
            occupied-positive lvl slot order_ref qty side slot_inside unused positive c.positive;
        fits = q.1;
        queued =
            let (is, v) = c.queued in
            let w = (entered-IsQueue lvl slot order_ref qty side is v free).0 in
            (is ++ slot ∷ [], record { chain = w.chain; once = w.once; holds = w.holds });
      }

  -- Where the total would overflow, taking the order out again leaves a consistent level.
  pub backed_out-IsConsistent : IsConsistent (free_slot linked slot)
  backed_out-IsConsistent =
      let unused = (alloc_slot-some lvl slot free).1 in
      let (price, total, count) = free_slot-fields linked slot in
      let sums = sum_active-vacated linked slot slot_inside slot_taken.0 in
      let counts = count_active-vacated linked slot slot_inside slot_taken.0 in
      record {
        total =
            total
            ∙ linked-fields.1
            ∙ c.total
            ∙ cancel_right _ _ qty (
                sym (sum_active-occupied lvl slot order_ref qty side slot_inside unused)
                ∙ sym sums
                ∙ ap (λ t. sum_active 16 (vacated linked slot) +ℤ t) slot_taken.1);
        counted = omega (
          arith,
          count,
          linked-fields,
          c.counted,
          counts,
          count_active-occupied lvl slot order_ref qty side slot_inside unused,
        );
        positive = vacated-positive linked slot slot_inside slot_taken.0 (λ i _.
            occupied-positive lvl slot order_ref qty side slot_inside unused positive c.positive i);
        fits = rw (total, linked-fields.1) c.fits;
        queued =
            let (is, v) = c.queued in
            let w = (entered-IsQueue lvl slot order_ref qty side is v free).0 in
            (
              erase slot (is ++ slot ∷ []),
              (vacated-IsQueue linked slot (is ++ slot ∷ []) w slot_inside slot_taken.0).0,
            );
      }
