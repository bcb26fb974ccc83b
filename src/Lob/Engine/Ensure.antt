-- ===== src/Lob/Engine/Ensure.antt =====
-- How ensure_level and the placement of an order in luv_lob.hpp keep the book.
use fort.Base.{
  ℕ, ◌+◌, ◌-◌, ◌≤◌, ◌<◌, ◌≡◌, inl, inr, true, ◌&&◌, Option, none, some, arith, ltb, leb, Bool-cases,
  Option-cases, if◌then◌else◌, subst, fun_ext,
}
use fort.Base.Int.{ℤ, pos, ◌-ℤ◌, minus_plus}
use fort.Lob.RefMap.{insert, levels_per_side, max_orders_per_level}
use fort.Lob.Level.{is_active, free_slot}
use fort.Lob.Level.Enter.{free_slot-fields, IsConsistent-IsPending, free_slot-IsConsistent}
use fort.Lob.Ladder.{Ladder, find_level, insert_pos, open_gap, fill_gap}
use fort.Lob.Ladder.Search.{find_level_exact}
use fort.Lob.Ladder.Live.{IsAlmost, inserted-IsAlmost}
use fort.Lob.Book.{
  LobEngine, set_ladder, store_level, level_of, refresh_level_locations, insert_level_impl,
  ensure_level, register_order,
}
use fort.Lob.Engine.Steps.{
  IsBook, IsBookBut, IsBookBut-IsBookHole, ladder_set_but, IsBook-IsBookBut, others_shifted,
  store_level-IsBookBut, read_back, remove_level_if_empty-IsBook,
}

-- At the end of the side there is nothing to shift.
open_gap_end : (l : Ladder) (at : ℕ) → l.count ≤ at → open_gap l at ≡ l
unfolding open_gap
open_gap_end l at h = λ i. record l { level = shifted i }
  where
    shifted : (λ j. if ltb at j && leb j l.count then l.level (j - 1) else l.level j) ≡ l.level
    shifted = fun_ext (λ j. ground arith)

-- What `ensure_level` hands on: the level to work on, or a failure that changed no level.
abbrev pub Ensured : ℕ → ℕ → Option ℕ × LobEngine → Type 0
Ensured symbol side (none, e) = IsBook e
Ensured symbol side (some at, e) = IsBookBut symbol side at e

module _ (e : LobEngine) (symbol side : ℕ) (b : IsBook e) where
  insert_level_impl-Ensured :
      (price : ℤ)
      → find_level side (e.ladders symbol side) price ≡ none
      → Ensured symbol side (insert_level_impl e symbol side price)
  unfolding insert_level_impl refresh_level_locations
  insert_level_impl-Ensured price h =
      let l = e.ladders symbol side in
      let at = insert_pos side l price in
      let absent = (find_level_exact side l price (b symbol side).sorted).1 h in
      elim (Bool-cases (leb levels_per_side l.count)) [
        | inl full ↦ rw full b
        | inr room ↦
            let v = inserted-IsAlmost side l price (b symbol side) absent (ground arith) in
            elim (Bool-cases (ltb at l.count)) [
              | inl m ↦
                  rw (room, m)
                    (ladder_set_but
                      (refresh_level_locations (set_ladder e symbol side (open_gap l at)) symbol
                        side (at + 1) l.count)
                      symbol side
                      (fill_gap ((set_ladder e symbol side (open_gap l at)).ladders symbol side) at
                        price)
                      at (others_shifted e symbol side (open_gap l at) (λ s d _. b s d))
                      (read_back e symbol side (IsAlmost side at) (λ k. fill_gap k at price)
                        (open_gap l at) v))
              | inr m ↦
                  rw (room, m)
                    (ladder_set_but e symbol side (fill_gap l at price) at (λ s d _. b s d)
                      (subst (λ k. IsAlmost side at (fill_gap k at price))
                        (open_gap_end l at (ground arith)) v))
            ]
      ]

  pub ensure_level-Ensured : (price : ℤ) → Ensured symbol side (ensure_level e symbol side price)
  unfolding ensure_level
  ensure_level-Ensured price =
      let l = e.ladders symbol side in
      elim (Option-cases (find_level side l price)) [
        | inl h ↦ rw (h, ensure_level) (insert_level_impl-Ensured price h)
        | inr (at, h) ↦
            rw (h, ensure_level)
              (IsBook-IsBookBut e symbol side at b
                ((find_level_exact side l price (b symbol side).sorted).0 at h).0)
      ]

module _ (e : LobEngine) (symbol side at slot order_ref : ℕ) (qty : ℤ) (b : IsBook e)
    (deep : at < (e.ladders symbol side).count) (inside : slot < max_orders_per_level)
    (busy : is_active ((level_of e symbol side at).orders slot) ≡ true)
    (held : ((level_of e symbol side at).orders slot).qty ≡ qty) where
  pub register_order-IsBook : IsBook (register_order e symbol side at slot order_ref qty).1
  unfolding register_order
  register_order-IsBook =
      let lvl = level_of e symbol side at in
      let c = (b symbol side).live at deep in
      let r =
        insert e.order_map order_ref
          (record { symbol_idx = symbol; side = side; level_idx = at; slot_idx = pos slot }) in
      elim (Bool-cases r.0) [
        | inl ok ↦ rw ok b
        | inr refused ↦
            let e' = record e { order_map = r.1 } in
            let lvl' = record (free_slot lvl slot) {
              total_qty = lvl.total_qty -ℤ qty;
              order_count = lvl.order_count - 1;
            } in
            rw refused (
              remove_level_if_empty-IsBook (store_level e' symbol side at lvl') symbol side at (
                store_level-IsBookBut e' symbol side at lvl'
                  (IsBookBut-IsBookHole symbol side at e'
                    (IsBook-IsBookBut e' symbol side at b deep))
                  (free_slot-IsConsistent lvl slot (lvl.total_qty -ℤ qty)
                    (IsConsistent-IsPending lvl slot c.consistent inside busy)
                    (rw held (minus_plus lvl.total_qty qty)))
                  (free_slot-fields lvl slot).0))
      ]
