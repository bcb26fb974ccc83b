-- ===== src/Lob/Engine.antt =====
-- The message handlers of LOBEngine in luv_lob.hpp and their dispatch; the lock of `process` and the log
-- lines are not modelled.
pub mod Steps
pub mod Ensure
pub mod Orders
pub mod Invariant
pub mod Query
pub mod Tests
use Prim.Native.Nat.{bit_and}
use fort.Base.{
  ℕ, zero, suc, ◌+◌, ◌-◌, ◌%◌, ◌^◌, Bool, true, false, not, ◌&&◌, ◌||◌, Option, none, some, List,
  [], ◌∷◌, ltb, leb, ◌==◌, if◌then◌else◌, update,
}
use fort.Base.Int.{ℤ, pos, pos_part, ◌-ℤ◌, leb_ℤ, ltb_ℤ}
use fort.Numeric.{is_valid_price, is_valid_quantity, checked_add}
use fort.Lob.RefMap as Map
use fort.Lob.RefMap.{
  OrderRefMap, OrderLocation, lookup, insert, remove, relocate, can_insert, symbols,
  levels_per_side, max_orders_per_level,
}
use fort.Lob.Level.{
  PriceLevel, is_active, alloc_slot, fill_slot, link_slot, free_slot, reduce_slot, clamped_qty,
}
use fort.Lob.Ladder.{
  Ladder, find_level, insert_pos, open_gap, fill_gap, close_gap, drop_last, put_level,
}
use fort.Lob.Book.{
  accepted, depth_full, level_full, total_overflow, unregistered, TickMsg, LobEngine, bump, reject,
  located, Placement, place_order, reduce_order, delete_order,
}

abbrev side_of_flags : ℕ → ℕ
side_of_flags flags = if bit_and flags 1 == 0 then 1 else 0

pub after_add : Placement × LobEngine → LobEngine
after_add (accepted, e) = e
after_add (_, e) = reject e

pub on_add_order : LobEngine → TickMsg → LobEngine
on_add_order e tick =
    let e' = record e { adds = bump e.adds } in
    elim (lookup e'.order_map tick.order_ref) [
      | some loc ↦ reject e'
      | none ↦ after_add (
          place_order e' tick.symbol_idx (side_of_flags tick.flags) tick.price tick.order_ref
            tick.qty)
    ]

pub on_order_executed : LobEngine → TickMsg → LobEngine
on_order_executed e tick =
    let e' = record e { executes = bump e.executes } in
    elim (located e' tick.order_ref) [
      | none ↦ e'
      | some loc ↦ reduce_order e' tick.order_ref loc tick.qty
    ]

pub on_order_cancel : LobEngine → TickMsg → LobEngine
on_order_cancel e tick =
    let e' = record e { cancels = bump e.cancels } in
    elim (located e' tick.order_ref) [
      | none ↦ e'
      | some loc ↦ reduce_order e' tick.order_ref loc tick.qty
    ]

pub on_order_delete : LobEngine → TickMsg → LobEngine
on_order_delete e tick =
    let e' = record e { deletes = bump e.deletes } in
    elim (located e' tick.order_ref) [ none ↦ e' | some loc ↦ delete_order e' tick.order_ref loc ]

-- A replacement that the order map refuses is undone without a rejection.
pub after_replace : Placement × LobEngine → LobEngine
after_replace (accepted, e) = e
after_replace (unregistered, e) = e
after_replace (_, e) = reject e

pub on_order_replace : LobEngine → TickMsg → LobEngine
on_order_replace e tick =
    let e' = record e { replaces = bump e.replaces } in
    elim (located e' tick.order_ref) [
      | none ↦ reject e'
      | some loc ↦
          if can_insert e'.order_map tick.match_num
          then after_replace (
              place_order (delete_order e' tick.order_ref loc) loc.symbol_idx loc.side tick.price
                tick.match_num tick.qty)
          else reject e'
    ]

pub on_trade : LobEngine → TickMsg → LobEngine
on_trade e tick = record e { trades = bump e.trades }

-- The switch of `process_unlocked`, with the checks of each case.
unfoldable pub dispatch : LobEngine → TickMsg → LobEngine
dispatch e tick =
    if tick.msg_type == b'A' || tick.msg_type == b'F'
    then (if tick.order_ref == 0
          || not (is_valid_quantity tick.qty)
          || not (is_valid_price tick.price)
        then reject e
        else on_add_order e tick)
    else if tick.msg_type == b'E' || tick.msg_type == b'C'
    then (if tick.order_ref == 0 || not (is_valid_quantity tick.qty)
        then reject e
        else on_order_executed e tick)
    else if tick.msg_type == b'X'
    then (if tick.order_ref == 0 || not (is_valid_quantity tick.qty)
        then reject e
        else on_order_cancel e tick)
    else if tick.msg_type == b'D'
    then (if tick.order_ref == 0 then reject e else on_order_delete e tick)
    else if tick.msg_type == b'U'
    then (if tick.order_ref == 0
          || tick.match_num == 0
          || tick.order_ref == tick.match_num
          || not (is_valid_quantity tick.qty)
          || not (is_valid_price tick.price)
        then reject e
        else on_order_replace e tick)
    else if tick.msg_type == b'P'
    then (if not (is_valid_quantity tick.qty) || not (is_valid_price tick.price)
        then reject e
        else on_trade e tick)
    else reject e

unfoldable pub process : LobEngine → TickMsg → LobEngine
process e tick =
    if leb symbols tick.symbol_idx
    then reject e
    else dispatch
        (if ltb 0 tick.timestamp
          then record e { last_timestamp = update e.last_timestamp tick.symbol_idx tick.timestamp }
          else e)
        tick

-- A feed of messages.
pub process_all : LobEngine → List TickMsg → LobEngine
process_all e [] = e
process_all e (t ∷ ts) = process_all (process e t) ts
