-- ===== src/Lob/Level/Listed.antt =====
-- The list of a level in luv_arena.hpp and luv_lob.hpp as a queue of its active slots.
use fort.Base.{
  ℕ, zero, suc, ◌≤◌, ◌<◌, ◌≡◌, refl, sym, subst, ◌≢◌, inl, inr, true, false, not, ◌&&◌, ◌||◌,
  Option, none, some, arith, List, [], ◌∷◌, ◌++◌, map, ◌==◌, ltb, update, ==_iff, Bool-cases,
}
use fort.Lob.Level.{
  OrderSlot, PriceLevel, is_active, max_orders_per_level, link_after, walk_to_tail, set_next,
  set_prev, empty_slot, reset_level,
}
use fort.Lob.Level.Sums.{count_active, count_active-update}
use fort.Lob.Level.Chain.{
  mem, distinct, erase, length, Chain, Chain-frame, Chain-append, walk_to_tail-mem,
}

pub mem_append : (j slot : ℕ) (is : List ℕ) → mem j (is ++ slot ∷ []) ≡ (mem j is || j == slot)
mem_append j slot [] = ground arith
mem_append j slot (i ∷ is) = ground (arith, mem_append j slot is)

pub distinct_append :
    (slot : ℕ) (is : List ℕ)
    → distinct is ≡ true
    → mem slot is ≡ false
    → distinct (is ++ slot ∷ []) ≡ true
distinct_append slot [] d f = refl
distinct_append slot (i ∷ is) d f = ground (arith, distinct_append slot is, mem_append i slot is)

pub mem-erase :
    (j slot : ℕ) (is : List ℕ)
    → distinct is ≡ true
    → mem j (erase slot is) ≡ (mem j is && not (j == slot))
mem-erase j slot [] d = refl
mem-erase j slot (i ∷ is) d = elim (Bool-cases (slot == i)) [
  | inl q ↦
      let e = (==_iff slot i).0 q in
      rw q (elim (Bool-cases (j == slot)) [
        | inl r ↦ let g = (==_iff j slot).0 r in rw (g, e) (ground (arith, d))
        | inr r ↦ ground (arith, e)
      ])
  | inr q ↦ rw q (ground (arith, mem-erase j slot is, d))
]

pub distinct-erase : (slot : ℕ) (is : List ℕ) → distinct is ≡ true → distinct (erase slot is) ≡ true
distinct-erase slot [] d = refl
distinct-erase slot (i ∷ is) d = elim (Bool-cases (slot == i)) [
  | inl q ↦ rw q (ground (arith, d))
  | inr q ↦ rw q (ground (arith, distinct-erase slot is, mem-erase i slot is, d))
]

count_active_none :
    (n : ℕ) (orders : ℕ → OrderSlot)
    → ((i : ℕ) → i < n → is_active (orders i) ≡ false)
    → count_active n orders ≡ 0
unfolding count_active
count_active_none zero orders h = refl
count_active_none (suc n) orders h =
    let rest = count_active_none n orders (λ i b. h i (omega arith)) in ground (arith, h n)

pub count_active_bound : (n : ℕ) (orders : ℕ → OrderSlot) → count_active n orders ≤ n
unfolding count_active
count_active_bound zero orders = omega arith
count_active_bound (suc n) orders = ground (arith, count_active_bound n orders)

is_active-empty_slot : is_active empty_slot ≡ false
unfolding is_active
is_active-empty_slot = refl

-- Distinct slots that are the active ones are as many.
pub length-count_active :
    (is : List ℕ) (orders : ℕ → OrderSlot)
    → distinct is ≡ true
    → ((j : ℕ) → mem j is ≡ (ltb j max_orders_per_level && is_active (orders j)))
    → length is ≡ count_active max_orders_per_level orders
length-count_active [] orders d h = sym (count_active_none 16 orders (λ i b. ground (arith, h i)))
length-count_active (i ∷ is) orders d h =
    let busy : (ltb i 16 && is_active (orders i)) ≡ true = ground (arith, h i) in
    let o' = update orders i empty_slot in
    let idle : is_active empty_slot ≡ false = is_active-empty_slot in
    let ih = length-count_active is o' (ground (arith, d)) (λ j. ground (arith, h j, d, idle)) in
    let u = count_active-update orders i empty_slot 16 (ground arith) in ground arith

pub record IsQueue (lvl : PriceLevel) (is : List ℕ) : Type 0 where
  pub chain : Chain lvl.orders none lvl.head_idx is
  pub once : distinct is ≡ true
  pub holds : (j : ℕ) → mem j is ≡ (ltb j max_orders_per_level && is_active (lvl.orders j))

-- `link_after` on a level whose slot is not chained yet.
pub link_after-Chain :
    (l : PriceLevel) (slot : ℕ) (head : Option ℕ) (is : List ℕ)
    → Chain l.orders none head is
    → l.head_idx ≡ head
    → (l.orders slot).next_idx ≡ none
    → mem slot is ≡ false
    → suc (length is) ≤ 16
    → distinct is ≡ true
    → let r = link_after l slot head in Chain r.orders none r.head_idx (is ++ slot ∷ [])
unfolding link_after
link_after-Chain l slot none [] c e n f len d = ground arith
link_after-Chain l slot none (i ∷ is) c e n f len d = cc
link_after-Chain l slot (some h) is c e n f len d =
    let t = walk_to_tail 16 l.orders h in
    let inside = walk_to_tail-mem 16 l.orders none h is c in
    let far : t ≢ slot = λ q. ground (arith, f, inside, q) in
    let o' = set_prev (set_next l.orders t (some slot)) slot (some t) in
    rw e (
      Chain-append l.orders o' slot 16 none h is c (omega arith) d f (record {
        tail_next = ground (arith, far);
        tail_prev = ground (arith, far);
        slot_prev = ground arith;
        slot_next = ground (arith, far, n);
        next_kept = λ i a b. ground (arith, a, b);
        prev_kept = λ i a b. ground (arith, a, b);
      }))

pub link_after-order_id :
    (l : PriceLevel) (slot : ℕ) (head : Option ℕ) (j : ℕ)
    → ((link_after l slot head).orders j).order_id ≡ (l.orders j).order_id
unfolding link_after
link_after-order_id l slot none j = ground arith
link_after-order_id l slot (some h) j = ground arith

-- A level whose links and flags are those of another has its list.
pub IsQueue-same :
    (l l' : PriceLevel) (is : List ℕ)
    → ((j : ℕ)
        → ((l'.orders j).next_idx ≡ (l.orders j).next_idx)
          × ((l'.orders j).prev_idx ≡ (l.orders j).prev_idx)
          × (is_active (l'.orders j) ≡ is_active (l.orders j)))
    → l'.head_idx ≡ l.head_idx
    → IsQueue l is
    → IsQueue l' is
IsQueue-same l l' is same e v = record {
  chain =
      subst (λ k. Chain l'.orders none k is) (sym e)
        (Chain-frame l.orders l'.orders none l.head_idx is v.chain
          (λ j m. ((same j).0, (same j).1)));
  once = v.once;
  holds = λ j. rw ((same j).2) (v.holds j);
}

-- The references of the orders in these slots, in time order.
abbrev pub refs : PriceLevel → List ℕ → List ℕ
refs lvl is = map (λ i. (lvl.orders i).order_id) is

pub map_agree :
    (f g : ℕ → ℕ) (is : List ℕ) → ((j : ℕ) → mem j is ≡ true → f j ≡ g j) → map f is ≡ map g is
map_agree f g [] h = refl
map_agree f g (i ∷ is) h =
    rw (h i (ground arith), map_agree f g is (λ j m. h j (ground (arith, m))))

pub map_append :
    (f g : ℕ → ℕ) (slot r : ℕ) (is : List ℕ)
    → ((j : ℕ) → mem j is ≡ true → f j ≡ g j)
    → f slot ≡ r
    → map f (is ++ slot ∷ []) ≡ map g is ++ r ∷ []
map_append f g slot r [] h e = rw e
map_append f g slot r (i ∷ is) h e =
    rw (h i (ground arith), map_append f g slot r is (λ j m. h j (ground (arith, m))) e)

pub reset-IsQueue : IsQueue reset_level []
reset-IsQueue = record {
  chain = refl;
  once = refl;
  holds = λ j. ground (arith, is_active-empty_slot);
}
