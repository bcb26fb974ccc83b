-- ===== src/Lob/Book.antt =====
-- The books of LOBEngine in luv_lob.hpp: its state, and the parts that its message handlers share. The
-- arena's slab and the level counters of SymbolMeta are the ladders, one for each symbol and side.
use fort.Base.{
  ℕ, zero, suc, ◌+◌, ◌-◌, ◌%◌, ◌^◌, Bool, true, false, not, ◌&&◌, ◌||◌, Option, none, some, ltb,
  leb, ◌==◌, if◌then◌else◌,
}
use fort.Base.Int.{ℤ, pos, pos_part, ◌-ℤ◌, leb_ℤ, ltb_ℤ}
use fort.Numeric.{checked_add}
use fort.Lob.RefMap as Map
use fort.Lob.RefMap.{
  OrderRefMap, OrderLocation, lookup, insert, remove, relocate, can_insert, symbols,
  levels_per_side, max_orders_per_level,
}
use fort.Lob.Level.{
  PriceLevel, is_active, alloc_slot, fill_slot, link_slot, free_slot, reduce_slot, clamped_qty,
}
use fort.Lob.Ladder.{
  Ladder, find_level, insert_pos, open_gap, fill_gap, close_gap, drop_last, put_level,
}

pub record TickMsg : Type 0 where
  pub msg_type : ℕ
  pub flags : ℕ
  pub symbol_idx : ℕ
  pub timestamp : ℕ
  pub price : ℤ
  pub qty : ℤ
  pub order_ref : ℕ
  pub match_num : ℕ

pub record LobEngine : Type 0 where
  pub ladders : ℕ → ℕ → Ladder
  pub order_map : OrderRefMap
  pub last_timestamp : ℕ → ℕ
  pub adds : ℕ
  pub executes : ℕ
  pub cancels : ℕ
  pub deletes : ℕ
  pub replaces : ℕ
  pub trades : ℕ
  pub rejected : ℕ

-- `init` on an arena that is or is not initialised: the map first, then the level counters and
-- timestamps of SymbolMeta and the statistics. The levels of the arena stay as they are.
unfoldable pub init : Bool → Bool → LobEngine → Bool × LobEngine
init arena_ready granted e =
    let (ok, m) = Map.init granted e.order_map in
    if not arena_ready
    then (false, e)
    else if not ok
    then (false, record e { order_map = m })
    else (
      true,
      record {
        ladders = λ s d. record (e.ladders s d) { count = 0 };
        order_map = m;
        last_timestamp = λ s. 0;
        adds = 0;
        executes = 0;
        cancels = 0;
        deletes = 0;
        replaces = 0;
        trades = 0;
        rejected = 0;
      },
    )

-- `++` on a uint64_t counter.
abbrev pub bump : ℕ → ℕ
bump n = (n + 1) % 2 ^ 64

abbrev pub reject : LobEngine → LobEngine
reject e = record e { rejected = bump e.rejected }

abbrev pub set_ladder : LobEngine → ℕ → ℕ → Ladder → LobEngine
set_ladder e sym side l = record e {
  ladders = λ s d. if s == sym && d == side then l else e.ladders s d;
}

abbrev pub level_of : LobEngine → ℕ → ℕ → ℕ → PriceLevel
level_of e sym side idx = (e.ladders sym side).level idx

abbrev pub store_level : LobEngine → ℕ → ℕ → ℕ → PriceLevel → LobEngine
store_level e sym side idx lvl = set_ladder e sym side (put_level (e.ladders sym side) idx lvl)

-- The inner loop of `refresh_level_locations`: `n` slots of a level, from `slot` on.
unfoldable pub refresh_slots : ℕ → ℕ → PriceLevel → ℕ → ℕ → ℕ → OrderRefMap → OrderRefMap
refresh_slots zero slot lvl sym side idx m = m
refresh_slots (suc n) slot lvl sym side idx m = refresh_slots n (slot + 1) lvl sym side idx (
    if is_active (lvl.orders slot)
    then relocate m (lvl.orders slot).order_id
        (record { symbol_idx = sym; side = side; level_idx = idx; slot_idx = pos slot })
    else m)

unfoldable pub refresh_levels : ℕ → ℕ → Ladder → ℕ → ℕ → OrderRefMap → OrderRefMap
refresh_levels zero idx l sym side m = m
refresh_levels (suc n) idx l sym side m =
    refresh_levels n (idx + 1) l sym side
      (refresh_slots max_orders_per_level 0 (l.level idx) sym side idx m)

-- `refresh_level_locations` on the levels from `first` to `last`.
unfoldable pub refresh_level_locations : LobEngine → ℕ → ℕ → ℕ → ℕ → LobEngine
refresh_level_locations e sym side first last = record e {
  order_map = refresh_levels (last + 1 - first) first (e.ladders sym side) sym side e.order_map;
}

-- The shift of `remove_level_if_empty`, which is made only before the last level.
unfoldable pub shift_levels : LobEngine → ℕ → ℕ → ℕ → LobEngine
shift_levels e sym side idx =
    let last = (e.ladders sym side).count - 1 in
    if ltb idx last
    then refresh_level_locations (set_ladder e sym side (close_gap (e.ladders sym side) idx)) sym
        side idx (last - 1)
    else e

unfoldable pub remove_level_if_empty : LobEngine → ℕ → ℕ → ℕ → LobEngine
remove_level_if_empty e sym side idx =
    if ltb 0 (level_of e sym side idx).order_count || ((e.ladders sym side).count == 0)
    then e
    else (let e' = shift_levels e sym side idx in
        set_ladder e' sym side (drop_last (e'.ladders sym side)))

-- `insert_level_impl`; `none` is -1.
unfoldable pub insert_level_impl : LobEngine → ℕ → ℕ → ℤ → Option ℕ × LobEngine
insert_level_impl e sym side price =
    let l = e.ladders sym side in
    let at = insert_pos side l price in
    let e' =
      if ltb at l.count
      then refresh_level_locations (set_ladder e sym side (open_gap l at)) sym side (at + 1) l.count
      else e in
    if leb levels_per_side l.count
    then (none, e)
    else (some at, set_ladder e' sym side (fill_gap (e'.ladders sym side) at price))

-- The level at a price, found or new.
unfoldable pub ensure_level : LobEngine → ℕ → ℕ → ℤ → Option ℕ × LobEngine
ensure_level e sym side price = elim (find_level side (e.ladders sym side) price) [
  | some idx ↦ (some idx, e)
  | none ↦ insert_level_impl e sym side price
]

unfoldable pub valid_location : LobEngine → ℕ → OrderLocation → Bool
valid_location e order_ref loc =
    let lvl = level_of e loc.symbol_idx loc.side loc.level_idx in
    let slot = lvl.orders (pos_part loc.slot_idx) in
    not (
      leb symbols loc.symbol_idx
      || ltb 1 loc.side
      || leb (e.ladders loc.symbol_idx loc.side).count loc.level_idx
      || ltb_ℤ loc.slot_idx (pos 0)
      || leb_ℤ (pos max_orders_per_level) loc.slot_idx)
    && is_active slot
    && slot.order_id == order_ref
    && leb_ℤ (pos 0) slot.qty
    && leb_ℤ (pos 0) lvl.total_qty
    && ltb 0 lvl.order_count

-- The location of an order that `lookup` and `valid_location` accept.
unfoldable pub located : LobEngine → ℕ → Option OrderLocation
located e order_ref = elim (lookup e.order_map order_ref) [
  | none ↦ none
  | some loc ↦ if valid_location e order_ref loc then some loc else none
]

-- How the placing of an order ends, in `on_add_order` and in `on_order_replace`.
pub data Placement : Type 0 where
  accepted depth_full level_full total_overflow unregistered : Placement

-- The entry into the order map, or the way back out of the level.
unfoldable pub register_order : LobEngine → ℕ → ℕ → ℕ → ℕ → ℕ → ℤ → Placement × LobEngine
register_order e sym side idx slot order_ref qty =
    let (ok, m) =
      insert e.order_map order_ref
        (record { symbol_idx = sym; side = side; level_idx = idx; slot_idx = pos slot }) in
    let lvl = level_of e sym side idx in
    if ok then (accepted, record e { order_map = m }) else (
      unregistered,
      remove_level_if_empty
          (store_level (record e { order_map = m }) sym side idx
            (record (free_slot lvl slot) {
              total_qty = lvl.total_qty -ℤ qty;
              order_count = lvl.order_count - 1;
            }))
          sym side idx,
    )

unfoldable pub fill_order : LobEngine → ℕ → ℕ → ℕ → ℕ → ℕ → ℤ → Placement × LobEngine
fill_order e sym side idx slot order_ref qty =
    let lvl = level_of e sym side idx in
    let linked = link_slot (fill_slot lvl slot order_ref qty side) slot in
    elim (checked_add lvl.total_qty qty) [
      | none ↦ (
        total_overflow,
        remove_level_if_empty (store_level e sym side idx (free_slot linked slot)) sym side idx,
      )
      | some total ↦
          register_order
            (store_level e sym side idx
              (record linked { total_qty = total; order_count = lvl.order_count + 1 }))
            sym side idx slot order_ref qty
    ]

unfoldable pub place_in_level : LobEngine → ℕ → ℕ → ℕ → ℕ → ℤ → Placement × LobEngine
place_in_level e sym side idx order_ref qty = elim (alloc_slot (level_of e sym side idx)) [
  | none ↦ (level_full, e)
  | some slot ↦ fill_order e sym side idx slot order_ref qty
]

unfoldable pub place_at : Option ℕ × LobEngine → ℕ → ℕ → ℕ → ℤ → Placement × LobEngine
place_at (none, e) sym side order_ref qty = (depth_full, e)
place_at (some idx, e) sym side order_ref qty = place_in_level e sym side idx order_ref qty

unfoldable pub place_order : LobEngine → ℕ → ℕ → ℤ → ℕ → ℤ → Placement × LobEngine
place_order e sym side price order_ref qty =
    place_at (ensure_level e sym side price) sym side order_ref qty

-- The order leaves its level, which keeps `total`; then the map, and the level if it is empty.
unfoldable pub take_order : LobEngine → ℕ → OrderLocation → ℤ → LobEngine
take_order e order_ref loc total =
    let lvl = level_of e loc.symbol_idx loc.side loc.level_idx in
    let e' =
      store_level e loc.symbol_idx loc.side loc.level_idx
        (record (free_slot lvl (pos_part loc.slot_idx)) {
          total_qty = total;
          order_count = lvl.order_count - 1;
        }) in
    remove_level_if_empty (record e' { order_map = remove e'.order_map order_ref }) loc.symbol_idx
      loc.side loc.level_idx

-- The body that `on_order_executed` and `on_order_cancel` share.
unfoldable pub reduce_order : LobEngine → ℕ → OrderLocation → ℤ → LobEngine
reduce_order e order_ref loc qty =
    let slot = pos_part loc.slot_idx in
    let lvl = level_of e loc.symbol_idx loc.side loc.level_idx in
    let reduced = reduce_slot lvl slot (clamped_qty qty (lvl.orders slot).qty) in
    let e' = store_level e loc.symbol_idx loc.side loc.level_idx reduced in
    if leb_ℤ (reduced.orders slot).qty (pos 0)
    then take_order e' order_ref loc reduced.total_qty
    else e'

-- `on_order_delete` and the first part of `on_order_replace`.
unfoldable pub delete_order : LobEngine → ℕ → OrderLocation → LobEngine
delete_order e order_ref loc =
    let lvl = level_of e loc.symbol_idx loc.side loc.level_idx in
    let qty = (lvl.orders (pos_part loc.slot_idx)).qty in
    take_order e order_ref loc (lvl.total_qty -ℤ clamped_qty qty lvl.total_qty)
