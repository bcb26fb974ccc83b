-- ===== src/Lob/RefMap/Laws.antt =====
-- OrderRefMap of luv_lob.hpp as a finite map from order references to locations.
use fort.Base.{
  ℕ, ◌≡◌, refl, inl, inr, true, false, ◌&&◌, none, some, arith, ◌==◌, if◌then◌else◌, update, ==_iff,
  Bool-cases, Option-cases,
}
use fort.Lob.RefMap.{
  OrderRefMap, OrderLocation, find_slot, slot_of, lookup, insert, remove, insert_at, write,
  valid_entry, hash, is_reserved, max_probe_length, tombstone, can_insert,
}
use fort.Lob.RefMap.Probe.{find_slot-some, insert_probe-absent, can_insert_probe-Offers}
use fort.Lob.RefMap.Indexed.{
  insert_at-IsIndexed, lookup-insert_at, removed_reach, IsIndexed, find_slot-write, reach_once,
}

module _ (m : OrderRefMap) (v : IsIndexed m) (u key : ℕ) where
  -- No probe finds a key once its slot is a tombstone.
  removed_absent :
      is_reserved key ≡ false
      → m.keys u ≡ key
      → find_slot max_probe_length (update m.keys u tombstone) (hash key) key ≡ none
  removed_absent live held =
      elim (Option-cases (find_slot max_probe_length (update m.keys u tombstone) (hash key) key)) [
        | inl e ↦ e
        | inr (t, e) ↦
            let q =
              find_slot-some max_probe_length (update m.keys u tombstone) (hash key) key t e in
            absurd
              (ground (arith, live, q, reach_once m v t key live, reach_once m v u key live held))
      ]

valid_entry-live :
    (key : ℕ) (loc : OrderLocation) → valid_entry key loc ≡ true → is_reserved key ≡ false
unfolding valid_entry
valid_entry-live key loc h = ground arith

module _ (m : OrderRefMap) (key : ℕ) (loc : OrderLocation) (v : IsIndexed m) where
  -- `insert` keeps the table indexed and within its load, whether it succeeds or not.
  pub insert-IsIndexed : IsIndexed (insert m key loc).1
  unfolding insert
  insert-IsIndexed = elim (Bool-cases (m.mapped && valid_entry key loc)) [
    | inl e ↦
        rw e (insert_at-IsIndexed m v key loc (valid_entry-live key loc (ground arith)) _ refl)
    | inr e ↦ rw e v
  ]

  -- `insert` on an indexed table: if it returns true, its key has the new location and every other
  -- key what it had; if it returns false, every key has what it had.
  pub lookup-insert :
      (j : ℕ)
      → lookup (insert m key loc).1 j
        ≡ (if (insert m key loc).0 && key == j then some loc else lookup m j)
  unfolding insert
  lookup-insert j = elim (Bool-cases (m.mapped && valid_entry key loc)) [
    | inl e ↦ rw e (
        lookup-insert_at m v key loc (valid_entry-live key loc (ground arith)) (ground arith) _ refl
          j)
    | inr e ↦ rw e
  ]

  -- A key that `can_insert` accepts is inserted, at a location that is in range.
  pub insert-can_insert :
      can_insert m key ≡ true
      → valid_entry key loc ≡ true
      → ((insert m key loc).0 ≡ true) × (lookup m key ≡ none)
  unfolding insert insert_at write can_insert lookup slot_of
  insert-can_insert h ok =
      let (u, o) =
        can_insert_probe-Offers max_probe_length m.keys (hash key) key none (ground arith) in
      let absent = insert_probe-absent max_probe_length m.keys (hash key) key u none (inl o) in
      ground (arith, o, absent)

module _ (m : OrderRefMap) (key : ℕ) (v : IsIndexed m) where
  remove-IsIndexed : IsIndexed (remove m key)
  unfolding remove slot_of
  remove-IsIndexed = elim (Option-cases (slot_of m key)) [
    | inl e ↦ rw (e, remove) v
    | inr (u, e) ↦
        let live : is_reserved key ≡ false = ground arith in
        let found : find_slot max_probe_length m.keys (hash key) key ≡ some u = ground arith in
        rw (e, remove)
          (record {
            reach =
                removed_reach m v u key live
                  (find_slot-some max_probe_length m.keys (hash key) key u found);
            bounded = omega (arith, v.bounded);
          })
  ]

  lookup-removed : (j : ℕ) → lookup (remove m key) j ≡ (if key == j then none else lookup m j)
  unfolding remove lookup slot_of
  lookup-removed j = elim (Option-cases (slot_of m key)) [
    | inl e ↦ elim (Bool-cases (key == j)) [
      | inl k ↦ let p = (==_iff key j).0 k in rw (← p) (ground (arith, e))
      | inr k ↦ ground (arith, e)
    ]
    | inr (u, e) ↦
        let live : is_reserved key ≡ false = ground arith in
        let found : find_slot max_probe_length m.keys (hash key) key ≡ some u = ground arith in
        let held = find_slot-some max_probe_length m.keys (hash key) key u found in
        elim (Bool-cases (key == j)) [
          | inl k ↦
              let p = (==_iff key j).0 k in
              rw (← p) (ground (arith, e, removed_absent m v u key live held))
          | inr k ↦ ground (arith, e, held, find_slot-write m v u tombstone j)
        ]
  ]

  -- `remove` on an indexed table keeps it indexed, and takes its key away and no other.
  pub lookup-remove :
      IsIndexed (remove m key)
      × ((j : ℕ) → lookup (remove m key) j ≡ (if key == j then none else lookup m j))
  lookup-remove = (remove-IsIndexed, lookup-removed)
