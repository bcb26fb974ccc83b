-- ===== src/Lob/Engine/Invariant.antt =====
-- The handlers of luv_lob.hpp, and the dispatch, keep every side of every book well formed.
use fort.Base.{
  ℕ, ◌≡◌, refl, inl, inr, Bool, true, false, ◌||◌, not, arith, ltb, leb, List, [], ◌∷◌, Bool-cases,
  Option-cases, update, ◌==◌, if◌then◌else◌,
}
use fort.Base.Int.{ℤ, pos, ◌≤ℤ◌, ◌<ℤ◌}
use mathlib.Core.Bool.{false≢true}
use fort.Lob.RefMap as Map
use fort.Lob.Ladder.{Ladder}
use fort.Lob.Ladder.Live.{IsLadder}
use fort.Numeric.{is_valid_price, is_valid_quantity, max_quantity}
use fort.Lob.RefMap.{OrderLocation, OrderRefMap, lookup, can_insert, symbols}
use fort.Lob.Engine.{
  side_of_flags, after_add, after_replace, on_add_order, on_order_executed, on_order_cancel,
  on_order_delete, on_order_replace, on_trade, dispatch, process, process_all,
}
use fort.Lob.Book.{
  accepted, init, LobEngine, TickMsg, Placement, reject, bump, located, place_order, delete_order,
}
use fort.Lob.Engine.Steps.{IsBook}
use fort.Lob.Engine.Orders.{
  place_order-IsBook, located-IsLocated, reduce_order-IsBook, delete_order-IsBook,
}

after_add-IsBook : (r : Placement × LobEngine) → IsBook r.1 → IsBook (after_add r)
unfolding after_add
after_add-IsBook (accepted, e) b = b
after_add-IsBook (_, e) b = b

after_replace-IsBook : (r : Placement × LobEngine) → IsBook r.1 → IsBook (after_replace r)
unfolding after_replace
after_replace-IsBook (accepted, e) b = b
after_replace-IsBook (_, e) b = b

valid_quantity : (q : ℤ) → is_valid_quantity q ≡ true → (pos 0 <ℤ q) × (q ≤ℤ max_quantity)
unfolding is_valid_quantity
valid_quantity q h = ground arith

module _ (e : LobEngine) (tick : TickMsg) (b : IsBook e) where
  module _ (valid : is_valid_quantity tick.qty ≡ true) where
    on_add_order-IsBook : IsBook (on_add_order e tick)
    unfolding on_add_order
    on_add_order-IsBook =
        let e' = record e { adds = bump e.adds } in
        let (positive, small) = valid_quantity tick.qty valid in
        let side = side_of_flags tick.flags in
        elim (Option-cases (lookup e.order_map tick.order_ref)) [
          | inl h ↦
              rw (h, on_add_order)
                (after_add-IsBook
                  (place_order e' tick.symbol_idx side tick.price tick.order_ref tick.qty)
                  (place_order-IsBook tick.symbol_idx side tick.order_ref tick.qty positive small e'
                    tick.price b))
          | inr (loc, h) ↦ rw (h, on_add_order) b
        ]

    on_order_executed-IsBook : IsBook (on_order_executed e tick)
    unfolding on_order_executed
    on_order_executed-IsBook =
        let e' = record e { executes = bump e.executes } in
        elim (Option-cases (located e' tick.order_ref)) [
          | inl h ↦ rw (h, on_order_executed) b
          | inr (loc, h) ↦
              rw (h, on_order_executed)
                (reduce_order-IsBook e' tick.order_ref loc b
                  (located-IsLocated e' tick.order_ref loc h) tick.qty
                  (valid_quantity tick.qty valid).0)
        ]

    on_order_cancel-IsBook : IsBook (on_order_cancel e tick)
    unfolding on_order_cancel
    on_order_cancel-IsBook =
        let e' = record e { cancels = bump e.cancels } in
        elim (Option-cases (located e' tick.order_ref)) [
          | inl h ↦ rw (h, on_order_cancel) b
          | inr (loc, h) ↦
              rw (h, on_order_cancel)
                (reduce_order-IsBook e' tick.order_ref loc b
                  (located-IsLocated e' tick.order_ref loc h) tick.qty
                  (valid_quantity tick.qty valid).0)
        ]

    on_order_replace-IsBook : IsBook (on_order_replace e tick)
    unfolding on_order_replace
    on_order_replace-IsBook =
        let e' = record e { replaces = bump e.replaces } in
        let (positive, small) = valid_quantity tick.qty valid in
        elim (Option-cases (located e' tick.order_ref)) [
          | inl h ↦ rw (h, on_order_replace) b
          | inr (loc, h) ↦ elim (Bool-cases (can_insert e.order_map tick.match_num)) [
            | inl q ↦
                let d = delete_order e' tick.order_ref loc in
                rw (h, on_order_replace, q)
                  (after_replace-IsBook
                    (place_order d loc.symbol_idx loc.side tick.price tick.match_num tick.qty)
                    (place_order-IsBook loc.symbol_idx loc.side tick.match_num tick.qty positive
                      small d tick.price
                      (delete_order-IsBook e' tick.order_ref loc b
                        (located-IsLocated e' tick.order_ref loc h))))
            | inr q ↦ rw (h, on_order_replace, q) b
          ]
        ]

  on_order_delete-IsBook : IsBook (on_order_delete e tick)
  unfolding on_order_delete
  on_order_delete-IsBook =
      let e' = record e { deletes = bump e.deletes } in
      elim (Option-cases (located e' tick.order_ref)) [
        | inl h ↦ rw (h, on_order_delete) b
        | inr (loc, h) ↦
            rw (h, on_order_delete)
              (delete_order-IsBook e' tick.order_ref loc b
                (located-IsLocated e' tick.order_ref loc h))
      ]

-- A handler behind its check.
checked-IsBook :
    (fails : Bool) (e d : LobEngine)
    → IsBook e
    → (fails ≡ false → IsBook d)
    → IsBook (if fails then reject e else d)
checked-IsBook true e d b k = b
checked-IsBook false e d b k = k refl

module _ (e : LobEngine) (tick : TickMsg) (b : IsBook e) where
  abbrev no_ref : Bool
  no_ref = tick.order_ref == 0

  abbrev no_qty : Bool
  no_qty = not (is_valid_quantity tick.qty)

  abbrev no_price : Bool
  no_price = not (is_valid_price tick.price)

  dispatch-IsBook : IsBook (dispatch e tick)
  unfolding dispatch on_trade
  dispatch-IsBook = elim (Bool-cases (tick.msg_type == b'A' || tick.msg_type == b'F')) [
    | inl k ↦ rw k (
        checked-IsBook (no_ref || no_qty || no_price) e (on_add_order e tick) b
          (λ h. on_add_order-IsBook e tick b (ground (arith, h))))
    | inr a ↦ elim (Bool-cases (tick.msg_type == b'E' || tick.msg_type == b'C')) [
      | inl k ↦
          rw (a, k)
            (checked-IsBook (no_ref || no_qty) e (on_order_executed e tick) b
              (λ h. on_order_executed-IsBook e tick b (ground (arith, h))))
      | inr c ↦ elim (Bool-cases (tick.msg_type == b'X')) [
        | inl k ↦
            rw (a, c, k)
              (checked-IsBook (no_ref || no_qty) e (on_order_cancel e tick) b
                (λ h. on_order_cancel-IsBook e tick b (ground (arith, h))))
        | inr d ↦ elim (Bool-cases (tick.msg_type == b'D')) [
          | inl k ↦
              rw (a, c, d, k)
                (checked-IsBook no_ref e (on_order_delete e tick) b
                  (λ _. on_order_delete-IsBook e tick b))
          | inr f ↦ elim (Bool-cases (tick.msg_type == b'U')) [
            | inl k ↦
                rw (a, c, d, f, k)
                  (checked-IsBook
                    (no_ref
                      || tick.match_num == 0
                      || tick.order_ref == tick.match_num
                      || no_qty
                      || no_price)
                    e (on_order_replace e tick) b
                    (λ h. on_order_replace-IsBook e tick b (ground (arith, h))))
            | inr g ↦ elim (Bool-cases (tick.msg_type == b'P')) [
              | inl k ↦
                  rw (a, c, d, f, g, k)
                    (checked-IsBook (no_qty || no_price) e (on_trade e tick) b (λ _. b))
              | inr k ↦ rw (a, c, d, f, g, k) b
            ]
          ]
        ]
      ]
    ]
  ]

abbrev stamp : LobEngine → TickMsg → LobEngine
stamp e tick = record e { last_timestamp = update e.last_timestamp tick.symbol_idx tick.timestamp }

-- One message, whatever it holds, keeps every side of every book well formed: within its depth,
-- strictly sorted, with no empty level, each level's total and count those of its active slots, whose
-- quantities are positive and which its list chains, and the total an int64_t.
pub process-IsBook : (e : LobEngine) (tick : TickMsg) → IsBook e → IsBook (process e tick)
unfolding process
process-IsBook e tick b = elim (Bool-cases (leb symbols tick.symbol_idx)) [
  | inl unknown ↦ rw unknown b
  | inr known ↦ elim (Bool-cases (ltb 0 tick.timestamp)) [
    | inl stamped ↦ rw (known, stamped) (dispatch-IsBook (stamp e tick) tick b)
    | inr bare ↦ rw (known, bare) (dispatch-IsBook e tick b)
  ]
]

-- A feed of messages, one at a time.
pub process_all-IsBook :
    (e : LobEngine) (ticks : List TickMsg) → IsBook e → IsBook (process_all e ticks)
unfolding process_all
process_all-IsBook e [] b = b
process_all-IsBook e (t ∷ ts) b = process_all-IsBook (process e t) ts (process-IsBook e t b)

empty-IsLadder : (side : ℕ) (l : Ladder) → IsLadder side (record l { count = 0 })
empty-IsLadder side l = record {
  deep = omega arith;
  sorted = λ i j a b. absurd (omega arith);
  live = λ i b. absurd (omega arith);
}

-- Once `init` has succeeded, whatever the arena's levels hold, a feed of messages leaves every side of
-- every book well formed.
pub process_all-init :
    (e : LobEngine) (ready granted : Bool) (ticks : List TickMsg)
    → (init ready granted e).0 ≡ true
    → IsBook (process_all (init ready granted e).1 ticks)
unfolding init
process_all-init e ready granted ticks h = process_all-IsBook (init ready granted e).1 ticks book
  where
    book : IsBook (init ready granted e).1
    book s d = elim (Bool-cases ready) [
      | inl a ↦ elim (Bool-cases (Map.init granted e.order_map).0) [
        | inl q ↦ rw (a, q) (empty-IsLadder d (e.ladders s d))
        | inr q ↦ absurd (false≢true (ground (arith, a, q, h)))
      ]
      | inr a ↦ absurd (false≢true (ground (arith, a, h)))
    ]
