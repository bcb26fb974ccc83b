-- ===== src/Lob/RefMap/Probe.antt =====
-- What the probes of OrderRefMap find, and how a write to one slot of the key array changes them.
use fort.Base.{
  ℕ, zero, suc, ◌≡◌, refl, ap, ◌≢◌, ◌⊎◌, inl, inr, true, Option, none, some, arith, ◌==◌, update,
  ==_iff, Bool-cases,
}
use fort.Lob.RefMap.{
  find_slot, next_slot, insert_probe, Probed, hit, gap, spent, first_tombstone, destination,
  empty_key, can_insert_probe, is_reserved,
}

pub find_slot-some :
    (n : ℕ) (keys : ℕ → ℕ) (slot key t : ℕ) → find_slot n keys slot key ≡ some t → keys t ≡ key
unfolding find_slot
find_slot-some zero keys slot key t h = cc
find_slot-some (suc n) keys slot key t h =
    ground (arith, find_slot-some n keys (next_slot slot) key t)

-- A write of another key, not the empty one, over another key does not hide a key.
pub find_slot-update_ne :
    (n : ℕ) (keys : ℕ → ℕ) (slot key t u k : ℕ)
    → keys u ≢ key
    → k ≢ key
    → k ≢ empty_key
    → find_slot n keys slot key ≡ some t
    → find_slot n (update keys u k) slot key ≡ some t
unfolding find_slot
find_slot-update_ne zero keys slot key t u k a b c h = cc
find_slot-update_ne (suc n) keys slot key t u k a b c h = elim (Bool-cases (slot == u)) [
  | inl e ↦
      let p = (==_iff slot u).0 e in
      ground (arith, ap keys p, find_slot-update_ne n keys (next_slot slot) key t u k a b c)
  | inr e ↦ ground (arith, find_slot-update_ne n keys (next_slot slot) key t u k a b c)
]

pub insert_probe-hit :
    (n : ℕ) (keys : ℕ → ℕ) (slot key t : ℕ) (tomb : Option ℕ)
    → insert_probe n keys slot key tomb ≡ hit t
    → find_slot n keys slot key ≡ some t
unfolding insert_probe find_slot
insert_probe-hit zero keys slot key t tomb h = cc
insert_probe-hit (suc n) keys slot key t tomb h =
    ground (
      arith,
      insert_probe-hit n keys (next_slot slot) key t (first_tombstone tomb slot (keys slot)),
    )

-- The slot that a probe ends with, if it offers one for a new key.
abbrev pub Offers : Probed → ℕ → Type 0
Offers p u = (p ≡ gap u) ⊎ (p ≡ spent (some u))

-- Once a tombstone was passed, it is the slot that is offered.
insert_probe-tombstone :
    (n : ℕ) (keys : ℕ → ℕ) (slot key t u : ℕ)
    → Offers (insert_probe n keys slot key (some t)) u
    → u ≡ t
unfolding insert_probe
insert_probe-tombstone zero keys slot key t u h = ground arith
insert_probe-tombstone (suc n) keys slot key t u h =
    ground (arith, insert_probe-tombstone n keys (next_slot slot) key t u)

-- The slot that is offered held no key, and the key is found there once it is written.
pub insert_probe-Offers :
    (n : ℕ) (keys : ℕ → ℕ) (slot key u : ℕ)
    → Offers (insert_probe n keys slot key none) u
    → (is_reserved (keys u) ≡ true) × (find_slot n (update keys u key) slot key ≡ some u)
unfolding insert_probe find_slot
insert_probe-Offers zero keys slot key u h = ground arith
insert_probe-Offers (suc n) keys slot key u h = elim (Bool-cases (slot == u)) [
  | inl e ↦
      let p = (==_iff slot u).0 e in
      ground (
        arith,
        ap keys p,
        insert_probe-Offers n keys (next_slot slot) key u,
        insert_probe-tombstone n keys (next_slot slot) key slot u,
      )
  | inr e ↦ ground (
    arith,
    insert_probe-Offers n keys (next_slot slot) key u,
    insert_probe-tombstone n keys (next_slot slot) key slot u,
  )
]

-- The probe of `insert` ends at the key only if the key is in the table.
pub insert_probe-absent :
    (n : ℕ) (keys : ℕ → ℕ) (slot key u : ℕ) (tomb : Option ℕ)
    → Offers (insert_probe n keys slot key tomb) u
    → find_slot n keys slot key ≡ none
unfolding insert_probe find_slot
insert_probe-absent zero keys slot key u tomb h = refl
insert_probe-absent (suc n) keys slot key u tomb h = ground (
  arith,
  insert_probe-absent n keys (next_slot slot) key u (first_tombstone tomb slot (keys slot)),
)

-- A key that `can_insert` accepts is not in the table, and `insert` is offered a slot for it.
pub can_insert_probe-Offers :
    (n : ℕ) (keys : ℕ → ℕ) (slot key : ℕ) (tomb : Option ℕ)
    → can_insert_probe n keys slot key ≡ true
    → (u : ℕ) × (insert_probe n keys slot key tomb ≡ gap u)
unfolding can_insert_probe insert_probe
can_insert_probe-Offers zero keys slot key tomb h = cc
can_insert_probe-Offers (suc n) keys slot key tomb h = elim (Bool-cases (keys slot == empty_key)) [
  | inl e ↦ (destination tomb slot, ground arith)
  | inr e ↦
      let tomb' = first_tombstone tomb slot (keys slot) in
      let (u, offered) = can_insert_probe-Offers n keys (next_slot slot) key tomb' (ground arith) in
      (u, ground arith)
]
