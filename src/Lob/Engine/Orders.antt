-- ===== src/Lob/Engine/Orders.antt =====
-- The placing and the removal of an order in luv_lob.hpp keep every side of every book well formed.
use fort.Base.{
  ℕ, ◌+◌, ◌-◌, ◌<◌, ◌≡◌, inl, inr, true, Option, none, some, arith, Bool-cases, Option-cases, ap,
  subst, sym, ◌∙◌,
}
use fort.Base.Int.{ℤ, pos, pos_part, ◌+ℤ◌, ◌-ℤ◌, ◌≤ℤ◌, ◌<ℤ◌, leb_ℤ, +ℤ_zero, eq_of_parts}
use fort.Numeric.{checked_add, max_quantity}
use fort.Lob.RefMap.{OrderLocation, remove, lookup, max_orders_per_level}
use fort.Lob.Level.{PriceLevel, is_active, alloc_slot, free_slot, clamped_qty}
use fort.Lob.Level.Consistent.{IsConsistent, alloc_slot-none}
use fort.Lob.Level.Steps.{
  reduced, reduced-IsPending, reduced-IsConsistent, reduced-fields, delete_total,
}
use fort.Lob.Level.Enter.{
  free_slot-fields, IsPending, IsConsistent-IsPending, free_slot-IsConsistent, linked,
  linked-fields, linked-IsConsistent, backed_out-IsConsistent, slot_inside, slot_taken,
}
use fort.Lob.Ladder.{Ladder, put_level}
use fort.Lob.Ladder.Live.{IsLive}
use fort.Lob.Book.{
  LobEngine, store_level, level_of, valid_location, located, fill_order, place_in_level, place_at,
  place_order, ensure_level, take_order, reduce_order, delete_order,
}
use fort.Lob.Engine.Steps.{
  IsBook, IsBookBut, IsBookHole, IsBook-IsBookBut, IsBookBut-IsBook, IsBookBut-IsBookHole,
  store_level-IsBookHole, store_level-IsBook, store_level-IsBookBut, level_of-store_level,
  set_ladder_self, remove_level_if_empty-IsBook,
}
use fort.Lob.Engine.Ensure.{Ensured, ensure_level-Ensured, register_order-IsBook}

count-store_level :
    (e : LobEngine) (symbol side at : ℕ) (lvl : PriceLevel)
    → ((store_level e symbol side at lvl).ladders symbol side).count ≡ (e.ladders symbol side).count
count-store_level e symbol side at lvl =
    ap (λ (l : Ladder). l.count)
      (set_ladder_self e symbol side (put_level (e.ladders symbol side) at lvl))

module _ (symbol side order_ref : ℕ) (qty : ℤ) (positive : pos 0 <ℤ qty)
    (small : qty ≤ℤ max_quantity) where
  fill_order-IsBook :
      (e : LobEngine) (at slot : ℕ)
      → IsBookBut symbol side at e
      → alloc_slot (level_of e symbol side at) ≡ some slot
      → IsBook (fill_order e symbol side at slot order_ref qty).1
  unfolding fill_order
  fill_order-IsBook e at slot b free =
      let lvl = level_of e symbol side at in
      let c = b.almost.consistent in
      let k = linked lvl slot order_ref qty side c free positive small in
      let fields = linked-fields lvl slot order_ref qty side c free positive small in
      let taken = slot_taken lvl slot order_ref qty side c free positive small in
      elim (Option-cases (checked_add lvl.total_qty qty)) [
        | inl overflow ↦
            rw (overflow, fill_order)
              (remove_level_if_empty-IsBook (store_level e symbol side at (free_slot k slot)) symbol
                side at
                (store_level-IsBookBut e symbol side at (free_slot k slot)
                  (IsBookBut-IsBookHole symbol side at e b)
                  (backed_out-IsConsistent lvl slot order_ref qty side c free positive small)
                  ((free_slot-fields k slot).0 ∙ fields.0)))
        | inr (total, sum) ↦
            let lvl' = record k { total_qty = total; order_count = lvl.order_count + 1 } in
            let e' = store_level e symbol side at lvl' in
            let stored = level_of-store_level e symbol side at lvl' in
            let live : IsLive lvl' = record {
              consistent =
                  linked-IsConsistent lvl slot order_ref qty side c free positive small total sum;
              occupied = omega arith;
            } in
            rw (sum, fill_order)
              (register_order-IsBook e' symbol side at slot order_ref qty
                (store_level-IsBook e symbol side at lvl' (IsBookBut-IsBookHole symbol side at e b)
                  live fields.0)
                (rw (count-store_level e symbol side at lvl') b.almost.inside)
                (slot_inside lvl slot order_ref qty side c free positive small)
                (subst (λ (l : PriceLevel). is_active (l.orders slot) ≡ true) (sym stored) taken.0)
                (subst (λ (l : PriceLevel). (l.orders slot).qty ≡ qty) (sym stored) taken.1))
      ]

  place_in_level-IsBook :
      (e : LobEngine) (at : ℕ)
      → IsBookBut symbol side at e
      → IsBook (place_in_level e symbol side at order_ref qty).1
  unfolding place_in_level
  place_in_level-IsBook e at b =
      let lvl = level_of e symbol side at in
      elim (Option-cases (alloc_slot lvl)) [
        | inl full ↦
            rw (full, place_in_level)
              (IsBookBut-IsBook e symbol side at b (alloc_slot-none lvl b.almost.consistent full))
        | inr (slot, free) ↦ rw (free, place_in_level) (fill_order-IsBook e at slot b free)
      ]

  place_at-IsBook :
      (r : Option ℕ × LobEngine)
      → Ensured symbol side r
      → IsBook (place_at r symbol side order_ref qty).1
  unfolding place_at
  place_at-IsBook (none, e) b = b
  place_at-IsBook (some at, e) b = place_in_level-IsBook e at b

  -- Whether the order is placed or not, and however it fails.
  pub place_order-IsBook :
      (e : LobEngine) (price : ℤ)
      → IsBook e
      → IsBook (place_order e symbol side price order_ref qty).1
  unfolding place_order
  place_order-IsBook e price b =
      place_at-IsBook (ensure_level e symbol side price)
        (ensure_level-Ensured e symbol side b price)

module _ (e : LobEngine) (order_ref : ℕ) (loc : OrderLocation) where
  abbrev level_at : PriceLevel
  level_at = level_of e loc.symbol_idx loc.side loc.level_idx

  abbrev slot_at : ℕ
  slot_at = pos_part loc.slot_idx

  take_order-IsBook :
      (total : ℤ)
      → IsBookHole loc.symbol_idx loc.side loc.level_idx e
      → IsPending level_at slot_at
      → total +ℤ (level_at.orders slot_at).qty ≡ level_at.total_qty
      → IsBook (take_order e order_ref loc total)
  unfolding take_order
  take_order-IsBook total b p sum =
      let lvl' = record (free_slot level_at slot_at) {
        total_qty = total;
        order_count = level_at.order_count - 1;
      } in
      let e' = store_level e loc.symbol_idx loc.side loc.level_idx lvl' in
      let but =
        store_level-IsBookBut e loc.symbol_idx loc.side loc.level_idx lvl' b
          (free_slot-IsConsistent level_at slot_at total p sum)
          (free_slot-fields level_at slot_at).0 in
      remove_level_if_empty-IsBook (record e' { order_map = remove e'.order_map order_ref })
        loc.symbol_idx loc.side loc.level_idx (record { others = but.others; almost = but.almost })

-- What `located` says of the location that it hands on.
pub record IsLocated (e : LobEngine) (order_ref : ℕ) (loc : OrderLocation) : Type 0 where
  pub deep : loc.level_idx < (e.ladders loc.symbol_idx loc.side).count
  pub inside : pos_part loc.slot_idx < max_orders_per_level
  pub busy : is_active ((level_at e order_ref loc).orders (slot_at e order_ref loc)) ≡ true
  pub named : ((level_at e order_ref loc).orders (slot_at e order_ref loc)).order_id ≡ order_ref

valid_location-IsLocated :
    (e : LobEngine) (order_ref : ℕ) (loc : OrderLocation)
    → valid_location e order_ref loc ≡ true
    → IsLocated e order_ref loc
unfolding valid_location
valid_location-IsLocated e order_ref loc h = ground arith

pub located-IsLocated :
    (e : LobEngine) (order_ref : ℕ) (loc : OrderLocation)
    → located e order_ref ≡ some loc
    → IsLocated e order_ref loc
unfolding located
located-IsLocated e order_ref loc h = elim (Option-cases (lookup e.order_map order_ref)) [
  | inl q ↦ absurd (ground (arith, q))
  | inr (loc', q) ↦
      let both : (valid_location e order_ref loc' ≡ true) × (loc' ≡ loc) = ground (arith, q) in
      valid_location-IsLocated e order_ref loc
        (subst (λ k. valid_location e order_ref k ≡ true) both.1 both.0)
]

nothing_left : (q : ℤ) → leb_ℤ q (pos 0) ≡ true → pos 0 ≤ℤ q → q ≡ pos 0
nothing_left q a b = ground (arith, eq_of_parts q (pos 0))

-- An order that was located loses a quantity, or is deleted.
module _ (e : LobEngine) (order_ref : ℕ) (loc : OrderLocation) (b : IsBook e)
    (found : IsLocated e order_ref loc) where
  abbrev level_found : PriceLevel
  level_found = level_at e order_ref loc

  abbrev slot_found : ℕ
  slot_found = slot_at e order_ref loc

  level_found-IsConsistent : IsConsistent level_found
  level_found-IsConsistent = ((b loc.symbol_idx loc.side).live loc.level_idx found.deep).consistent

  book_hole : IsBookHole loc.symbol_idx loc.side loc.level_idx e
  book_hole =
      IsBookBut-IsBookHole loc.symbol_idx loc.side loc.level_idx e
        (IsBook-IsBookBut e loc.symbol_idx loc.side loc.level_idx b found.deep)

  pub reduce_order-IsBook : (qty : ℤ) → pos 0 <ℤ qty → IsBook (reduce_order e order_ref loc qty)
  unfolding reduce_order
  reduce_order-IsBook qty positive =
      let c = level_found-IsConsistent in
      let r = reduced level_found slot_found qty c found.inside found.busy positive in
      let pending =
        reduced-IsPending level_found slot_found qty c found.inside found.busy positive in
      let fields = reduced-fields level_found slot_found qty c found.inside found.busy positive in
      let e' = store_level e loc.symbol_idx loc.side loc.level_idx r in
      let stored : level_at e' order_ref loc ≡ r =
        level_of-store_level e loc.symbol_idx loc.side loc.level_idx r in
      elim (Bool-cases (leb_ℤ (r.orders slot_found).qty (pos 0))) [
        | inl gone ↦ rw gone (
            take_order-IsBook e' order_ref loc r.total_qty
              (store_level-IsBookHole e loc.symbol_idx loc.side loc.level_idx r book_hole fields.0)
              (subst (λ (l : PriceLevel). IsPending l slot_found) (sym stored) pending)
              (subst (λ (l : PriceLevel). r.total_qty +ℤ (l.orders slot_found).qty ≡ l.total_qty)
                (sym stored)
                (rw (nothing_left (r.orders slot_found).qty gone pending.nonneg)
                  (+ℤ_zero r.total_qty))))
        | inr left ↦ rw left (
            store_level-IsBook e loc.symbol_idx loc.side loc.level_idx r book_hole
              (record {
                consistent =
                    reduced-IsConsistent level_found slot_found qty c found.inside found.busy
                      positive (ground arith);
                occupied =
                    rw fields.1
                      ((b loc.symbol_idx loc.side).live loc.level_idx found.deep).occupied;
              })
              fields.0)
      ]

  pub delete_order-IsBook : IsBook (delete_order e order_ref loc)
  unfolding delete_order
  delete_order-IsBook =
      let c = level_found-IsConsistent in
      take_order-IsBook e order_ref loc
        (level_found.total_qty
          -ℤ clamped_qty (level_found.orders slot_found).qty level_found.total_qty)
        book_hole (IsConsistent-IsPending level_found slot_found c found.inside found.busy)
        (delete_total level_found slot_found c found.inside found.busy)
