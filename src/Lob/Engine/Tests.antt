-- ===== src/Lob/Engine/Tests.antt =====
-- Runs of the engine of luv_lob.hpp on small feeds, and its theorems at concrete inputs.
use fort.Base.{ℕ, ◌≡◌, refl, true, false, List, [], ◌∷◌, arith, min}
use fort.Base.Int.{ℤ, pos, negsuc, ◌≤ℤ◌, ◌+ℤ◌, ◌-ℤ◌}
use fort.Numeric.{is_valid_price, is_valid_quantity, checked_add}
use fort.Lob.RefMap.{
  OrderRefMap, OrderLocation, lookup, insert, remove, relocate, can_insert, hash, next_slot,
  find_slot, insert_probe, slot_of, insert_at, write, can_insert_probe, symbols,
}
use fort.Lob.Level.{
  reset_level, is_active, alloc_slot, fill_slot, link_slot, free_slot, reduce_slot, clamped_qty,
  walk_to_tail, deactivate_slot,
}
use fort.Lob.Ladder.{
  find_level, search_level, insert_pos, open_gap, fill_gap, close_gap, drop_last, ahead, price_at,
}
use fort.Lob.RefMap as Map
use fort.Lob.Engine.{
  process, process_all, dispatch, on_add_order, on_order_executed, on_order_cancel, on_order_delete,
  on_order_replace, on_trade, after_add, after_replace,
}
use fort.Lob.Book.{
  init, LobEngine, TickMsg, located, valid_location, place_order, place_at, place_in_level,
  fill_order, register_order, ensure_level, insert_level_impl, remove_level_if_empty, shift_levels,
  refresh_level_locations, refresh_levels, refresh_slots, take_order, reduce_order, delete_order,
}
use fort.Lob.Engine.Steps.{IsBook}
use fort.Lob.Engine.Invariant.{process-IsBook, process_all-IsBook, process_all-init}
use fort.Lob.Engine.Query.{
  best_bid_price, best_ask_price, bid_depth_qty, ask_depth_qty, best_price-IsLeading, IsLeading,
  depth_qty-orders_qty, orders_qty,
}

abbrev empty_map : OrderRefMap
empty_map = record {
  keys = λ i. 0;
  values = λ i. record { symbol_idx = 0; side = 0; level_idx = 0; slot_idx = pos 0 };
  count = 0;
  mapped = true;
}

-- The engine after `init`: no level is active.
abbrev start : LobEngine
start = record {
  ladders = λ s d. record { count = 0; level = λ i. reset_level };
  order_map = empty_map;
  last_timestamp = λ s. 0;
  adds = 0;
  executes = 0;
  cancels = 0;
  deletes = 0;
  replaces = 0;
  trades = 0;
  rejected = 0;
}

abbrev message : ℕ → ℕ → ℤ → ℤ → ℕ → ℕ → TickMsg
message kind flags price qty ref match = record {
  msg_type = kind;
  flags = flags;
  symbol_idx = 3;
  timestamp = 1;
  price = price;
  qty = qty;
  order_ref = ref;
  match_num = match;
}

-- Two bids at two prices, one ask, an execution of the better bid, a replacement, a bad message.
abbrev feed : List TickMsg
feed =
    message b'A' 1 (pos 100) (pos 10) 11 0
    ∷ message b'A' 1 (pos 101) (pos 5) 12 0
    ∷ message b'F' 0 (pos 105) (pos 7) 13 0
    ∷ message b'E' 1 (pos 0) (pos 5) 12 0
    ∷ message b'U' 0 (pos 104) (pos 9) 13 14
    ∷ message b'X' 0 (negsuc 0) (pos 1) 0 0
    ∷ []

-- What a run of the engine computes with.
run : List TickMsg → LobEngine
unfolding process_all process dispatch on_add_order on_order_executed on_order_cancel
    on_order_delete on_order_replace on_trade located valid_location place_order place_at
    place_in_level fill_order register_order ensure_level insert_level_impl remove_level_if_empty
    shift_levels refresh_level_locations refresh_levels refresh_slots take_order reduce_order
    delete_order after_add after_replace lookup insert remove relocate can_insert hash next_slot
    find_slot insert_probe slot_of insert_at write can_insert_probe is_active alloc_slot fill_slot
    link_slot free_slot reduce_slot clamped_qty walk_to_tail deactivate_slot find_level search_level
    insert_pos open_gap fill_gap close_gap drop_last ahead is_valid_price is_valid_quantity
    checked_add ◌+ℤ◌ ◌-ℤ◌
run = process_all start

abbrev summary : LobEngine → List ℤ
summary e =
    pos (e.ladders 3 0).count
    ∷ price_at (e.ladders 3 0) 0
    ∷ ((e.ladders 3 0).level 0).total_qty
    ∷ pos (e.ladders 3 1).count
    ∷ price_at (e.ladders 3 1) 0
    ∷ ((e.ladders 3 1).level 0).total_qty
    ∷ pos e.rejected
    ∷ pos e.order_map.count
    ∷ []

feed-run :
    summary (run feed) ≡ pos 1 ∷ pos 100 ∷ pos 10 ∷ pos 1 ∷ pos 104 ∷ pos 9 ∷ pos 1 ∷ pos 2 ∷ []
unfolding run
feed-run = refl

start-IsBook : IsBook start
start-IsBook s d = record {
  deep = omega arith;
  sorted = λ i j a b. absurd (omega arith);
  live = λ i b. absurd (omega arith);
}

process-IsBook_example : IsBook (process start (message b'A' 1 (pos 100) (pos 10) 11 0))
process-IsBook_example = process-IsBook start (message b'A' 1 (pos 100) (pos 10) 11 0) start-IsBook

feed-IsBook : IsBook (process_all start feed)
feed-IsBook = process_all-IsBook start feed start-IsBook

-- An engine before `init`.
abbrev pub fresh : LobEngine
fresh = record start { order_map = record empty_map { mapped = false } }

fresh-init : (init true true fresh).0 ≡ true
unfolding init Map.init
fresh-init = refl

process_all-init_example : IsBook (process_all (init true true fresh).1 feed)
process_all-init_example = process_all-init fresh true true feed fresh-init

best_price-IsLeading_example :
    let e = process_all start feed in
    IsLeading (λ p q. q ≤ℤ p) (e.ladders 3 0) (best_bid_price e 3)
    × IsLeading (λ p q. p ≤ℤ q) (e.ladders 3 1) (best_ask_price e 3)
best_price-IsLeading_example =
    best_price-IsLeading (process_all start feed) feed-IsBook 3 (omega arith)

depth_qty-orders_qty_example :
    (bid_depth_qty (process_all start feed) 3 5
      ≡ orders_qty
          (min 5 ((process_all start feed).ladders 3 0).count)
          0
          ((process_all start feed).ladders 3 0))
    × (ask_depth_qty (process_all start feed) 3 5
        ≡ orders_qty
            (min 5 ((process_all start feed).ladders 3 1).count)
            0
            ((process_all start feed).ladders 3 1))
depth_qty-orders_qty_example =
    depth_qty-orders_qty (process_all start feed) feed-IsBook 3 (omega arith) 5
