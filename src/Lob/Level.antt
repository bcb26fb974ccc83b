-- ===== src/Lob/Level.antt =====
-- OrderSlot and PriceLevel of luv_arena.hpp, and the operations of luv_lob.hpp on one price level: the
-- intrusive list of its orders, and the changes of the aggregates. An index of -1 is `none`. Prices
-- and quantities are exact integers; `IsConsistent` of a child bounds the total to int64_t.
pub mod Sums
pub mod Slots
pub mod Chain
pub mod Unlink
pub mod Queue
pub mod Listed
pub mod Consistent
pub mod Steps
pub mod Enter
pub mod Tests
use Prim.Native.Nat.{bit_and, bit_or}
use fort.Base.{
  ℕ, zero, suc, ◌+◌, ◌-◌, Bool, true, false, not, ◌||◌, ◌&&◌, Option, none, some, ltb, leb, ◌==◌,
  if◌then◌else◌, update,
}
use fort.Base.Int.{ℤ, pos, ◌+ℤ◌, ◌-ℤ◌, ltb_ℤ, leb_ℤ}

abbrev pub max_orders_per_level : ℕ
max_orders_per_level = 16

pub record OrderSlot : Type 0 where
  pub order_id : ℕ
  pub qty : ℤ
  pub flags : ℕ
  pub next_idx : Option ℕ
  pub prev_idx : Option ℕ

abbrev pub flag_bid : ℕ
flag_bid = 1

abbrev pub flag_active : ℕ
flag_active = 2

-- A slot as its member initialisers leave it.
abbrev pub empty_slot : OrderSlot
empty_slot = record { order_id = 0; qty = pos 0; flags = 0; next_idx = none; prev_idx = none }

unfoldable pub is_active : OrderSlot → Bool
is_active s = not (bit_and s.flags flag_active == 0)

pub record PriceLevel : Type 0 where
  pub orders : ℕ → OrderSlot
  pub price : ℤ
  pub total_qty : ℤ
  pub order_count : ℕ
  pub head_idx : Option ℕ

-- PriceLevel::reset
abbrev pub reset_level : PriceLevel
reset_level = record {
  orders = λ i. empty_slot;
  price = pos 0;
  total_qty = pos 0;
  order_count = 0;
  head_idx = none;
}

-- The scan of `alloc_slot` from index `i` on, with `n` slots left.
unfoldable pub alloc_from : ℕ → ℕ → (ℕ → OrderSlot) → Option ℕ
alloc_from zero i orders = none
alloc_from (suc n) i orders =
    let rest = alloc_from n (i + 1) orders in if not (is_active (orders i)) then some i else rest

unfoldable pub alloc_slot : PriceLevel → Option ℕ
unfolding alloc_from
alloc_slot lvl = alloc_from max_orders_per_level 0 lvl.orders

abbrev pub set_next : (ℕ → OrderSlot) → ℕ → Option ℕ → ℕ → OrderSlot
set_next orders i v = update orders i (record (orders i) { next_idx = v })

abbrev pub set_prev : (ℕ → OrderSlot) → ℕ → Option ℕ → ℕ → OrderSlot
set_prev orders i v = update orders i (record (orders i) { prev_idx = v })

-- The walk of `link_slot` to the tail. A list of the level has at most 16 slots, the fuel.
unfoldable pub walk_to_tail : ℕ → (ℕ → OrderSlot) → ℕ → ℕ
walk_to_tail zero orders cur = cur
walk_to_tail (suc fuel) orders cur = elim (orders cur).next_idx [
  | none ↦ cur
  | some next ↦ walk_to_tail fuel orders next
]

-- The two branches of `link_slot`, after `slot.next_idx = -1`.
unfoldable pub link_after : PriceLevel → ℕ → Option ℕ → PriceLevel
link_after lvl slot none = record lvl {
  orders = set_prev lvl.orders slot none;
  head_idx = some slot;
}
link_after lvl slot (some head) =
    let cur = walk_to_tail max_orders_per_level lvl.orders head in
    record lvl { orders = set_prev (set_next lvl.orders cur (some slot)) slot (some cur) }

unfoldable pub link_slot : PriceLevel → ℕ → PriceLevel
unfolding link_after
link_slot lvl slot =
    link_after (record lvl { orders = set_next lvl.orders slot none }) slot lvl.head_idx

-- `unlink_slot`, in its three steps: the successor of the predecessor, or the head ...
unfoldable pub unlink_before : PriceLevel → Option ℕ → Option ℕ → PriceLevel
unlink_before lvl none next = record lvl { head_idx = next }
unlink_before lvl (some prev) next = record lvl { orders = set_next lvl.orders prev next }

-- ... the predecessor of the successor ...
unfoldable pub unlink_after : PriceLevel → Option ℕ → Option ℕ → PriceLevel
unlink_after lvl prev none = lvl
unlink_after lvl prev (some next) = record lvl { orders = set_prev lvl.orders next prev }

-- ... and the slot itself. `next_idx` of the slot is read again after the first step, as the source does.
unfoldable pub unlink_slot : PriceLevel → ℕ → PriceLevel
unfolding unlink_before unlink_after
unlink_slot lvl slot =
    let l1 = unlink_before lvl (lvl.orders slot).prev_idx (lvl.orders slot).next_idx in
    let l2 = unlink_after l1 (l1.orders slot).prev_idx (l1.orders slot).next_idx in
    record l2 { orders = set_next (set_prev l2.orders slot none) slot none }

unfoldable pub deactivate_slot : OrderSlot → OrderSlot
deactivate_slot s = record s { flags = 0; order_id = 0; qty = pos 0 }

unfoldable pub clamped_qty : ℤ → ℤ → ℤ
clamped_qty requested available =
    if leb_ℤ requested (pos 0) || leb_ℤ available (pos 0)
    then pos 0
    else if ltb_ℤ requested available
    then requested
    else available

-- The slot that an accepted order fills: `order_id`, `qty` and `flags`.
unfoldable pub fill_slot : PriceLevel → ℕ → ℕ → ℤ → ℕ → PriceLevel
fill_slot lvl slot order_ref qty side = record lvl {
  orders = update lvl.orders slot (record (lvl.orders slot) {
    order_id = order_ref;
    qty = qty;
    flags = bit_or flag_active (if side == 0 then flag_bid else 0);
  });
}

-- `unlink_slot` and `deactivate_slot`, which every removal of an order makes.
unfoldable pub free_slot : PriceLevel → ℕ → PriceLevel
free_slot lvl slot =
    let l = unlink_slot lvl slot in
    record l { orders = update l.orders slot (deactivate_slot (l.orders slot)) }

-- `slot.qty -= delta; lvl.total_qty -= delta`
unfoldable pub reduce_slot : PriceLevel → ℕ → ℤ → PriceLevel
reduce_slot lvl slot delta = record lvl {
  orders =
      update lvl.orders slot (record (lvl.orders slot) { qty = (lvl.orders slot).qty -ℤ delta });
  total_qty = lvl.total_qty -ℤ delta;
}
