-- ===== src/Itch/Symbols/Laws.antt =====
-- SymbolTable of luv_decode_itch.hpp as a map from keys to symbol indices.
use fort.Base.{
  ℕ, ◌/◌, ◌≤◌, ◌<◌, ◌≡◌, ◌↔◌, inl, inr, refl, sym, ◌∙◌, Bool, true, false, some, arith, ◌==◌, ◌||◌,
  leb, if◌then◌else◌, Bool-cases, Option-cases, ==_iff,
}
use fort.Lob.RefMap.{symbols}
use fort.Itch.Bytes.{Buffer, load_ticker_key}
use fort.Itch.Symbols.{
  SymbolTable, not_found, table_capacity, hash, insert_slot, put_symbol, insert, lookup,
}
use fort.Itch.Symbols.Probe.{
  slot_at, Occupied, Passed, Hit, Stop, lookup_from-hit, lookup_from-Hit, insert_slot-Stop,
  occupied, occupied-update,
}
use fort.Itch.Symbols.Table.{hash_bounds, Reached, IsTable, run_bounds, insert_slot-ends}

-- What a slot that `insert` stopped at means for the table after.
module _ (t : SymbolTable) (v : IsTable t) (key idx slot : ℕ) (fits : idx < symbols)
    (room : t.count < table_capacity / 2) (stop : Stop t key table_capacity (hash key) slot) where
  abbrev after : SymbolTable
  after = put_symbol t key idx slot

  slot_bounds : slot < table_capacity
  slot_bounds = omega (arith, stop.reached)

  -- An occupied slot that `insert` stopped at has the key already.
  key_there : (t.values slot == not_found) ≡ false → t.keys slot ≡ key
  key_there full = ground (arith, full, stop.good)

  values_after : (j : ℕ) → after.values j ≡ (if j == slot then idx else t.values j)
  unfolding put_symbol
  values_after j = ground arith

  keys_after : (j : ℕ) → after.keys j ≡ (if j == slot then key else t.keys j)
  unfolding put_symbol
  keys_after j = elim (Bool-cases (t.values slot == not_found)) [
    | inl gone ↦ rw gone refl
    | inr full ↦ let k = key_there full in ground (arith, full, k)
  ]

  Occupied-after : (j : ℕ) → Occupied t j → Occupied after j
  Occupied-after j o = ground (arith, values_after j, fits, o)

  Occupied-slot : Occupied after slot
  Occupied-slot = ground (arith, values_after slot, fits)

  keys-slot : after.keys slot ≡ key
  keys-slot = ground (arith, keys_after slot)

  after-half_full : after.count ≤ table_capacity / 2
  unfolding put_symbol
  after-half_full = ground (arith, room)

  -- Another slot is as it was.
  elsewhere :
      (j : ℕ) → (j == slot) ≡ false → (after.values j ≡ t.values j) × (after.keys j ≡ t.keys j)
  elsewhere j apart = (ground (arith, values_after j, apart), ground (arith, keys_after j, apart))

  after-Reached : (j : ℕ) → j < table_capacity → Occupied after j → Reached after j
  after-Reached j small o = elim (Bool-cases (j == slot)) [
    | inl e ↦
        let same : after.keys j ≡ key = rw ((==_iff j slot).0 e) keys-slot in
        record {
          distance = stop.distance;
          near = stop.near;
          at = rw same ((==_iff j slot).0 e ∙ stop.reached);
          before = λ d l. rw same (Occupied-after _ (stop.before d l).0);
        }
    | inr e ↦
        let (values_same, keys_same) = elsewhere j e in
        let r = v.reached j small (rw values_same at o) in
        record {
          distance = r.distance;
          near = r.near;
          at = rw keys_same r.at;
          before = λ d l. rw keys_same (Occupied-after _ (r.before d l));
        }
  ]

  after-counted : after.count ≡ occupied table_capacity after.values
  unfolding put_symbol
  after-counted =
      let u = occupied-update table_capacity slot idx t.values slot_bounds in
      let c = v.counted in ground (arith, u, c, fits)

  pub put_symbol-IsTable : IsTable after
  put_symbol-IsTable = record {
    counted = after-counted;
    half_full = after-half_full;
    in_range = λ i l o. ground (arith, values_after i, fits, o, v.in_range i l);
    reached = after-Reached;
  }

  -- The key has its new index.
  pub lookup-put_symbol : lookup after key ≡ idx
  unfolding lookup
  lookup-put_symbol =
      let near : stop.distance < table_capacity / 2 = omega (
        arith,
        room,
        run_bounds t v (hash key) stop.distance (omega (arith, stop.near))
            (λ e l. (stop.before e l).0),
      ) in
      let at = sym stop.reached in
      let before : (e : ℕ) → e < stop.distance → Passed after key (slot_at (hash key) e) = λ e l.
        let p = stop.before e l in
        ground (
          arith,
          values_after (slot_at (hash key) e),
          keys_after (slot_at (hash key) e),
          p,
          fits,
          room,
        ) in
      let w =
        lookup_from-hit after key (table_capacity / 2) stop.distance (hash key) (hash_bounds key)
          near before (rw at Occupied-slot) (rw at ((==_iff (after.keys slot) key).1 keys-slot)) in
      w ∙ rw at (ground (arith, values_after slot))

  module _ (other : ℕ) (apart : (other == key) ≡ false) where
    key_apart : (key == other) ≡ false
    key_apart = ground (arith, apart)

    -- A slot that has the other key is none that `insert` wrote to.
    slot_apart : (j : ℕ) → Occupied t j → (t.keys j == other) ≡ true → (j == slot) ≡ false
    slot_apart j o same = elim (Bool-cases (j == slot)) [
      | inl e ↦
          let p = (==_iff j slot).0 e in
          let k = key_there (rw p at o) in
          let s = rw p at same in let s' = rw k at s in cc (key_apart, s')
      | inr e ↦ e
    ]

    slot_apart_after : (j : ℕ) → (after.keys j == other) ≡ true → (j == slot) ≡ false
    slot_apart_after j same = ground (arith, keys_after j, apart, same)

    Passed-after : (j : ℕ) → Passed t other j → Passed after other j
    Passed-after j (o, p) = (Occupied-after j o, ground (arith, keys_after j, apart, p))

    Passed-before : (j : ℕ) → Occupied t j → Passed after other j → Passed t other j
    Passed-before j o (_, p) = (
      o,
      ground (
        arith,
        keys_after j,
        apart,
        o,
        p,
        λ (f : (t.values slot == not_found) ≡ false). key_there f,
      ),
    )

    lookup-after :
        Hit t other (table_capacity / 2) (hash other) → lookup after other ≡ lookup t other
    unfolding lookup
    lookup-after w =
        let j = slot_at (hash other) w.distance in
        let (values_same, keys_same) = elsewhere j (slot_apart j w.there w.same) in
        let a =
          lookup_from-hit after other (table_capacity / 2) w.distance (hash other)
            (hash_bounds other) w.near (λ e l. Passed-after _ (w.before e l))
            (rw values_same w.there) (rw keys_same w.same) in
        let b =
          lookup_from-hit t other (table_capacity / 2) w.distance (hash other) (hash_bounds other)
            w.near w.before w.there w.same in
        a ∙ values_same ∙ sym b

    Hit-before :
        Hit after other (table_capacity / 2) (hash other)
        → Hit t other (table_capacity / 2) (hash other)
    Hit-before w =
        let j = slot_at (hash other) w.distance in
        let (values_same, keys_same) = elsewhere j (slot_apart_after j w.same) in
        let o = rw values_same at w.there in
        let r = v.reached j (omega arith) o in
        let key_is : t.keys j ≡ other = (==_iff (t.keys j) other).0 (rw keys_same at w.same) in
        let at : j ≡ slot_at (hash other) r.distance = rw key_is at r.at in
        let one : w.distance ≡ r.distance = omega (arith, at, w.near, r.near) in
        record {
          distance = w.distance;
          near = w.near;
          before = λ e l.
              Passed-before (slot_at (hash other) e)
                (rw key_is at (r.before e (omega (arith, l, one)))) (w.before e l);
          there = o;
          same = rw keys_same at w.same;
        }

    -- Any other key has the index that it had.
    pub lookup_other-put_symbol : lookup after other ≡ lookup t other
    unfolding lookup
    lookup_other-put_symbol = elim (Bool-cases (lookup after other == not_found)) [
      | inl gone ↦ elim (Bool-cases (lookup t other == not_found)) [
        | inl gone' ↦
            (==_iff (lookup after other) not_found).0 gone
            ∙ sym ((==_iff (lookup t other) not_found).0 gone')
        | inr found ↦ lookup-after (
            lookup_from-Hit t other (table_capacity / 2) (hash other) (hash_bounds other)
              (λ e. cc (sym found ∙ (==_iff (lookup t other) not_found).1 e)))
      ]
      | inr found ↦ lookup-after (
          Hit-before (
            lookup_from-Hit after other (table_capacity / 2) (hash other) (hash_bounds other)
              (λ e. cc (sym found ∙ (==_iff (lookup after other) not_found).1 e))))
    ]

-- `insert` of a ticker ends, whatever the table holds. It succeeds exactly if the index is in range and
-- at most 511 slots are occupied, and keeps the table well formed either way.
pub insert-ends :
    (t : SymbolTable) (ticker : Buffer) (idx : ℕ)
    → IsTable t
    → (ok : Bool) × (t' : SymbolTable) × (insert t (some ticker) idx ≡ some (ok, t'))
      × IsTable t'
      × ((ok ≡ true) ↔ ((idx < symbols) × (t.count < table_capacity / 2)))
unfolding insert
insert-ends t ticker idx v =
    let key = load_ticker_key ticker 0 in
    elim (Bool-cases (leb symbols idx || leb (table_capacity / 2) t.count)) [
      | inl full ↦ (false, t, rw full refl, v, (λ e. cc e, λ e. ground (arith, full, e)))
      | inr free ↦ elim (Option-cases (insert_slot table_capacity t key (hash key))) [
        | inl e ↦ absurd (insert_slot-ends t v key e)
        | inr (slot, e) ↦
            let stop = insert_slot-Stop t key table_capacity (hash key) slot (hash_bounds key) e in
            let fits : idx < symbols = ground (arith, free) in
            let room : t.count < table_capacity / 2 = ground (arith, free) in
            (
              true,
              put_symbol t key idx slot,
              rw (free, e) refl,
              put_symbol-IsTable t v key idx slot fits room stop,
              (λ _. (fits, room), λ _. refl),
            )
      ]
    ]

-- After a successful `insert` on a well-formed table the ticker's key has the new index, and every other
-- key what it had.
pub lookup-insert_symbol :
    (t t' : SymbolTable) (ticker : Buffer) (idx other : ℕ)
    → IsTable t
    → insert t (some ticker) idx ≡ some (true, t')
    → lookup t' other ≡ (if other == load_ticker_key ticker 0 then idx else lookup t other)
unfolding insert
lookup-insert_symbol t t' ticker idx other v done =
    let key = load_ticker_key ticker 0 in
    elim (Bool-cases (leb symbols idx || leb (table_capacity / 2) t.count)) [
      | inl full ↦ cc (rw full at done)
      | inr free ↦ elim (Option-cases (insert_slot table_capacity t key (hash key))) [
        | inl e ↦ absurd (insert_slot-ends t v key e)
        | inr (slot, e) ↦
            let stop = insert_slot-Stop t key table_capacity (hash key) slot (hash_bounds key) e in
            let fits : idx < symbols = ground (arith, free) in
            let room : t.count < table_capacity / 2 = ground (arith, free) in
            let same : put_symbol t key idx slot ≡ t' = cc (rw (free, e) at done) in
            elim (Bool-cases (other == key)) [
              | inl q ↦
                  let w = lookup-put_symbol t v key idx slot fits room stop in
                  rw (q, (==_iff other key).0 q, sym same) w
              | inr q ↦
                  let w = lookup_other-put_symbol t v key idx slot fits room stop other q in
                  rw (q, sym same) w
            ]
      ]
    ]
