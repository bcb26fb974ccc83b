-- ===== src/Itch/Symbols/Table.antt =====
-- What a well-formed SymbolTable of luv_decode_itch.hpp is.
use fort.Base.{ℕ, ◌/◌, ◌≤◌, ◌<◌, ◌≡◌, ◌≢◌, none, arith}
use fort.Lob.RefMap.{symbols}
use fort.Itch.Symbols.{SymbolTable, clear, table_capacity, hash, insert_slot}
use fort.Itch.Symbols.Probe.{
  slot_at, Occupied, insert_slot-none, occupied, occupied-empty, run-le-occupied,
}

pub hash_bounds : (key : ℕ) → hash key < table_capacity
unfolding hash
hash_bounds key = omega arith

-- How the occupied slot `i` is reached from the hash of its key.
pub record Reached (t : SymbolTable) (i : ℕ) : Type 0 where
  pub distance : ℕ
  pub near : distance < table_capacity
  pub at : i ≡ slot_at (hash (t.keys i)) distance
  pub before : (e : ℕ) → e < distance → Occupied t (slot_at (hash (t.keys i)) e)

-- The table counts its occupied slots, at most half of them; each holds a symbol index, and is reached
-- from the hash of its key over occupied slots.
pub record IsTable (t : SymbolTable) : Type 0 where
  pub counted : t.count ≡ occupied table_capacity t.values
  pub half_full : t.count ≤ table_capacity / 2
  pub in_range : (i : ℕ) → i < table_capacity → Occupied t i → t.values i < symbols
  pub reached : (i : ℕ) → i < table_capacity → Occupied t i → Reached t i

pub clear-IsTable : IsTable clear
clear-IsTable = record {
  counted = omega (arith, occupied-empty table_capacity);
  half_full = omega arith;
  in_range = λ i l o. cc;
  reached = λ i l o. cc;
}

module _ (t : SymbolTable) (v : IsTable t) where
  -- A run of occupied slots is at most half of the table.
  pub run_bounds :
      (h d : ℕ) → d ≤ table_capacity → ((e : ℕ) → e < d → Occupied t (slot_at h e)) → d ≤ t.count
  run_bounds h d small full = omega (arith, v.counted, run-le-occupied d h t.values small full)

  -- The loop of `insert` ends, in fewer rounds than the table has slots.
  pub insert_slot-ends : (key : ℕ) → insert_slot table_capacity t key (hash key) ≢ none
  insert_slot-ends key e =
      let passed = insert_slot-none t key table_capacity (hash key) (hash_bounds key) e in
      let b = run_bounds (hash key) table_capacity (omega arith) (λ d l. (passed d l).0) in
      omega (arith, v.half_full, b)
