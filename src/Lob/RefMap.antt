-- ===== src/Lob/RefMap.antt =====
-- OrderRefMap of luv_lob.hpp: the open-addressing table from order references to locations. The two
-- arrays are functions on the slots; `mapped` says that they are allocated (`_keys` is not null). The
-- table has a power of two of slots, so `& kMask` is a remainder. Log lines are not modelled.
pub mod Probe
pub mod Laws
pub mod Indexed
pub mod Tests
use Prim.Native.Nat.{bit_xor}
use fort.Base.{
  ℕ, zero, suc, ◌+◌, ◌-◌, ◌*◌, ◌/◌, ◌%◌, ◌^◌, Bool, true, false, not, ◌&&◌, ◌||◌, Option, none,
  some, ltb, leb, ◌==◌, if◌then◌else◌, update,
}
use fort.Base.Int.{ℤ, pos, negsuc, ltb_ℤ, leb_ℤ}
pub use fort.Lob.Level.{max_orders_per_level}

-- Config of luv_arena.hpp
abbrev pub symbols : ℕ
symbols = 512

abbrev pub levels_per_side : ℕ
levels_per_side = 1024

pub record OrderLocation : Type 0 where
  pub symbol_idx : ℕ
  pub side : ℕ
  pub level_idx : ℕ
  pub slot_idx : ℤ

abbrev pub capacity : ℕ
capacity = symbols * levels_per_side * max_orders_per_level

abbrev pub max_probe_length : ℕ
max_probe_length = 256

abbrev pub max_entries : ℕ
max_entries = capacity * 80 / 100

abbrev pub empty_key : ℕ
empty_key = 0

abbrev pub tombstone : ℕ
tombstone = 2 ^ 64 - 1

pub record OrderRefMap : Type 0 where
  pub keys : ℕ → ℕ
  pub values : ℕ → OrderLocation
  pub count : ℕ
  pub mapped : Bool

-- `key *= m` on uint64_t, and `key ^= key >> k`.
abbrev mul64 : ℕ → ℕ → ℕ
mul64 a b = a * b % 2 ^ 64

abbrev fold_bits : ℕ → ℕ → ℕ
fold_bits key k = bit_xor key (key / 2 ^ k)

unfoldable pub hash : ℕ → ℕ
hash key =
    let a = mul64 (fold_bits key 30) 0xBF58476D1CE4E5B9 in
    let b = mul64 (fold_bits a 27) 0x94D049BB133111EB in
    mul64 (fold_bits b 31) 0x9E3779B97F4A7C15 / 2 ^ 41

unfoldable pub next_slot : ℕ → ℕ
next_slot slot = (slot + 1) % capacity

abbrev pub is_reserved : ℕ → Bool
is_reserved key = (key == empty_key) || (key == tombstone)

-- `init`: a mapped table, if it was not mapped before. That mmap succeeds is the argument `granted`.
unfoldable pub init : Bool → OrderRefMap → Bool × OrderRefMap
init granted m =
    if m.mapped || not granted
    then (false, m)
    else (true, record m { keys = λ i. empty_key; count = 0; mapped = true })

pub clear : OrderRefMap → OrderRefMap
clear m = record m { keys = λ i. empty_key; count = 0 }

pub teardown : OrderRefMap → OrderRefMap
teardown m = if m.mapped then record m { mapped = false; count = 0 } else m

-- The probe of `lookup` and `remove`: the slot that holds the key.
unfoldable pub find_slot : ℕ → (ℕ → ℕ) → ℕ → ℕ → Option ℕ
find_slot zero keys slot key = none
find_slot (suc n) keys slot key =
    let rest = find_slot n keys (next_slot slot) key in
    if keys slot == key then some slot else if keys slot == empty_key then none else rest

unfoldable pub slot_of : OrderRefMap → ℕ → Option ℕ
slot_of m key =
    if not m.mapped || is_reserved key
    then none
    else find_slot max_probe_length m.keys (hash key) key

unfoldable pub lookup : OrderRefMap → ℕ → Option OrderLocation
unfolding slot_of
lookup m key = elim (slot_of m key) [ none ↦ none | some slot ↦ some (m.values slot) ]

unfoldable pub remove : OrderRefMap → ℕ → OrderRefMap
unfolding slot_of
remove m key = elim (slot_of m key) [
  | none ↦ m
  | some slot ↦ record m { keys = update m.keys slot tombstone; count = m.count - 1 }
]

-- How the probe of `insert` ends: at the key, at an empty slot (with the destination, the first
-- tombstone if one was passed), or at the probe limit (with the first tombstone).
pub data Probed : Type 0 where
  hit gap : ℕ → Probed
  spent : Option ℕ → Probed

abbrev first_tombstone : Option ℕ → ℕ → ℕ → Option ℕ
first_tombstone none slot key = if key == tombstone then some slot else none
first_tombstone (some t) slot key = some t

abbrev destination : Option ℕ → ℕ → ℕ
destination none slot = slot
destination (some t) slot = t

unfoldable pub insert_probe : ℕ → (ℕ → ℕ) → ℕ → ℕ → Option ℕ → Probed
insert_probe zero keys slot key tomb = spent tomb
insert_probe (suc n) keys slot key tomb =
    let rest = insert_probe n keys (next_slot slot) key (first_tombstone tomb slot (keys slot)) in
    if keys slot == key
    then hit slot
    else if keys slot == empty_key
    then gap (destination tomb slot)
    else rest

unfoldable pub write : OrderRefMap → ℕ → ℕ → OrderLocation → Bool × OrderRefMap
write m slot key loc = if leb max_entries m.count then (false, m) else (
  true,
  record m {
    keys = update m.keys slot key;
    values = update m.values slot loc;
    count = m.count + 1;
  },
)

unfoldable pub valid_entry : ℕ → OrderLocation → Bool
valid_entry key loc = not (
    is_reserved key
    || leb symbols loc.symbol_idx
    || ltb 1 loc.side
    || leb levels_per_side loc.level_idx
    || ltb_ℤ loc.slot_idx (pos 0)
    || leb_ℤ (pos max_orders_per_level) loc.slot_idx)

unfoldable pub insert_at : OrderRefMap → ℕ → OrderLocation → Probed → Bool × OrderRefMap
unfolding write
insert_at m key loc (hit slot) = (true, record m { values = update m.values slot loc })
insert_at m key loc (gap slot) = write m slot key loc
insert_at m key loc (spent (some slot)) = write m slot key loc
insert_at m key loc (spent none) = (false, m)

unfoldable pub insert : OrderRefMap → ℕ → OrderLocation → Bool × OrderRefMap
unfolding insert_at valid_entry
insert m key loc =
    if m.mapped && valid_entry key loc
    then insert_at m key loc (insert_probe max_probe_length m.keys (hash key) key none)
    else (false, m)

-- The probe of `can_insert`: an empty slot before the key and before the limit.
unfoldable pub can_insert_probe : ℕ → (ℕ → ℕ) → ℕ → ℕ → Bool
can_insert_probe zero keys slot key = false
can_insert_probe (suc n) keys slot key =
    let rest = can_insert_probe n keys (next_slot slot) key in
    if keys slot == key then false else if keys slot == empty_key then true else rest

unfoldable pub can_insert : OrderRefMap → ℕ → Bool
can_insert m key =
    m.mapped
    && not (is_reserved key)
    && ltb m.count max_entries
    && can_insert_probe max_probe_length m.keys (hash key) key

-- `*lookup(order_ref) = loc`, a write through the pointer that `lookup` returns.
unfoldable pub relocate : OrderRefMap → ℕ → OrderLocation → OrderRefMap
unfolding slot_of
relocate m key loc = elim (slot_of m key) [
  | none ↦ m
  | some slot ↦ record m { values = update m.values slot loc }
]

-- `fixup_levels`, on one slot of the table: the levels from `from` on move by one.
pub fixup_levels : OrderRefMap → ℕ → ℕ → ℕ → (ℕ → ℕ) → OrderRefMap
fixup_levels m sym side from move = record m {
  values = λ i.
      let loc = m.values i in
      if ltb i capacity
        && not (is_reserved (m.keys i))
        && loc.symbol_idx == sym
        && loc.side == side
        && leb from loc.level_idx
      then record loc { level_idx = move loc.level_idx % 2 ^ 16 }
      else loc;
}
