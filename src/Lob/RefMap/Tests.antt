-- ===== src/Lob/RefMap/Tests.antt =====
-- The laws of OrderRefMap in luv_lob.hpp at concrete tables.
use fort.Base.{◌≡◌, refl, ℕ, Bool, true, false, none, some, arith, ◌&&◌, if◌then◌else◌, ◌==◌}
use fort.Base.Int.{pos}
use fort.Lob.RefMap.{
  OrderRefMap, OrderLocation, lookup, insert, remove, can_insert, valid_entry, hash, next_slot,
  insert_probe, insert_at, write, can_insert_probe,
}
use fort.Lob.RefMap.Laws.{insert-IsIndexed, lookup-insert, lookup-remove, insert-can_insert}
use fort.Lob.RefMap.Indexed.{IsIndexed}

abbrev unmapped : OrderRefMap
unmapped = record {
  keys = λ i. 0;
  values = λ i. record { symbol_idx = 0; side = 0; level_idx = 0; slot_idx = pos 0 };
  count = 0;
  mapped = false;
}

abbrev table : OrderRefMap
table = record unmapped { mapped = true }

abbrev place : OrderLocation
place = record { symbol_idx = 3; side = 1; level_idx = 2; slot_idx = pos 5 }

table-IsIndexed : IsIndexed table
table-IsIndexed = record { reach = λ t live. cc; bounded = omega arith }

abbrev one_order : OrderRefMap
one_order = (insert table 77 place).1

one_order-IsIndexed : IsIndexed one_order
one_order-IsIndexed = insert-IsIndexed table 77 place table-IsIndexed

abbrev inserts : Bool
inserts = (insert table 77 place).0

inserts-true : inserts ≡ true
unfolding insert insert_at insert_probe hash next_slot write
inserts-true = refl

lookup-insert_example :
    lookup (insert table 77 place).1 77
    ≡ (if (insert table 77 place).0 && 77 == 77 then some place else lookup table 77)
lookup-insert_example = lookup-insert table 77 place table-IsIndexed 77

lookup-remove_example :
    IsIndexed (remove one_order 77)
    × ((j : ℕ) → lookup (remove one_order 77) j ≡ (if 77 == j then none else lookup one_order j))
lookup-remove_example = lookup-remove one_order 77 one_order-IsIndexed

accepts_77 : can_insert table 77 ≡ true
unfolding can_insert can_insert_probe hash next_slot
accepts_77 = refl

valid_77 : valid_entry 77 place ≡ true
unfolding valid_entry
valid_77 = refl

insert-can_insert_example : ((insert table 77 place).0 ≡ true) × (lookup table 77 ≡ none)
insert-can_insert_example = insert-can_insert table 77 place table-IsIndexed accepts_77 valid_77

insert-IsIndexed_example : IsIndexed (insert one_order 78 place).1
insert-IsIndexed_example = insert-IsIndexed one_order 78 place one_order-IsIndexed
