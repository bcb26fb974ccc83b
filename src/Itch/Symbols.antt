-- ===== src/Itch/Symbols.antt =====
-- SymbolTable of luv_decode_itch.hpp: the open-addressing table from tickers to symbol indices. The
-- arrays are functions on the 1024 slots, `& kMask` a remainder. The loop of `insert` has no bound in the
-- source: `none` is a run that finds no slot in a whole turn, and would not end.
pub mod Probe
pub mod Laws
pub mod Table
use fort.Base.{
  ℕ, zero, suc, ◌+◌, ◌*◌, ◌/◌, ◌%◌, ◌^◌, Bool, true, false, ◌||◌, Option, none, some, leb, ◌==◌,
  if◌then◌else◌, update,
}
use fort.Lob.RefMap.{symbols}
use fort.Itch.Bytes.{Buffer, load_ticker_key}

abbrev pub table_capacity : ℕ
table_capacity = 1024

abbrev pub not_found : ℕ
not_found = 0xffff

pub record SymbolTable : Type 0 where
  pub keys : ℕ → ℕ
  pub values : ℕ → ℕ
  pub count : ℕ

abbrev pub clear : SymbolTable
clear = record { keys = λ i. 0; values = λ i. not_found; count = 0 }

unfoldable pub hash : ℕ → ℕ
hash key = key * 0x9E3779B97F4A7C15 % 2 ^ 64 / 2 ^ 54

abbrev pub next_slot : ℕ → ℕ
next_slot slot = (slot + 1) % table_capacity

-- The loop of `insert`: the slot that it stops at, within `n` rounds.
unfoldable pub insert_slot : ℕ → SymbolTable → ℕ → ℕ → Option ℕ
insert_slot zero t key slot = none
insert_slot (suc n) t key slot =
    let rest = insert_slot n t key (next_slot slot) in
    if t.values slot == not_found || t.keys slot == key then some slot else rest

-- What the branch of a duplicate and the code behind the loop do.
unfoldable pub put_symbol : SymbolTable → ℕ → ℕ → ℕ → SymbolTable
put_symbol t key idx slot =
    if t.values slot == not_found
    then record {
      keys = update t.keys slot key;
      values = update t.values slot idx;
      count = t.count + 1;
    }
    else record t { values = update t.values slot idx }

unfoldable pub insert : SymbolTable → Option Buffer → ℕ → Option (Bool × SymbolTable)
insert t none idx = some (false, t)
insert t (some ticker) idx =
    let key = load_ticker_key ticker 0 in
    if leb symbols idx || leb (table_capacity / 2) t.count
    then some (false, t)
    else elim (insert_slot table_capacity t key (hash key)) [
      | none ↦ none
      | some slot ↦ some (true, put_symbol t key idx slot)
    ]

-- The loop of `lookup`, with `n` probes to go.
unfoldable pub lookup_from : ℕ → SymbolTable → ℕ → ℕ → ℕ
lookup_from zero t key slot = not_found
lookup_from (suc n) t key slot =
    let rest = lookup_from n t key (next_slot slot) in
    if t.values slot == not_found
    then not_found
    else if t.keys slot == key
    then t.values slot
    else rest

unfoldable pub lookup : SymbolTable → ℕ → ℕ
lookup t key = lookup_from (table_capacity / 2) t key (hash key)

unfoldable pub lookup_ticker : SymbolTable → Option Buffer → ℕ → ℕ
unfolding lookup
lookup_ticker t none i = not_found
lookup_ticker t (some p) i = lookup t (load_ticker_key p i)
