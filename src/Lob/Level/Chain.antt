-- ===== src/Lob/Level/Chain.antt =====
-- The intrusive list of a price level in luv_lob.hpp: chains of slots through `next_idx` and `prev_idx`, and
-- what appending does to them.
use fort.Base.{
  ℕ, zero, suc, ◌≤◌, ◌≡◌, refl, sym, ap, subst, ◌∙◌, ◌≢◌, Bool, true, false, not, ◌&&◌, ◌||◌,
  Option, none, some, arith, List, [], ◌∷◌, ◌++◌, ◌==◌, if◌then◌else◌,
}
use fort.Lob.Level.{OrderSlot, walk_to_tail}

abbrev pub mem : ℕ → List ℕ → Bool
mem x [] = false
mem x (y ∷ ys) = x == y || mem x ys

abbrev pub distinct : List ℕ → Bool
distinct [] = true
distinct (y ∷ ys) = not (mem y ys) && distinct ys

abbrev pub erase : ℕ → List ℕ → List ℕ
erase x [] = []
erase x (y ∷ ys) = if x == y then ys else y ∷ erase x ys

abbrev pub length : List ℕ → ℕ
length [] = 0
length (y ∷ ys) = suc (length ys)

-- From `cur`, whose predecessor is `prev`, the links run through these slots.
abbrev pub Chain : (ℕ → OrderSlot) → Option ℕ → Option ℕ → List ℕ → Type 0
Chain orders prev cur [] = cur ≡ none
Chain orders prev cur (i ∷ is) =
    (cur ≡ some i) × ((orders i).prev_idx ≡ prev) × Chain orders (some i) (orders i).next_idx is

-- Links that agree on the slots of a chain.
pub Chain-frame :
    (o o' : ℕ → OrderSlot) (prev cur : Option ℕ) (is : List ℕ)
    → Chain o prev cur is
    → ((i : ℕ)
        → mem i is ≡ true
        → ((o' i).next_idx ≡ (o i).next_idx) × ((o' i).prev_idx ≡ (o i).prev_idx))
    → Chain o' prev cur is
Chain-frame o o' prev cur [] c h = c
Chain-frame o o' prev cur (i ∷ is) (a, b, c) h =
    let (n, p) = h i (ground arith) in
    (
      a,
      p ∙ b,
      subst (λ k. Chain o' (some i) k is) (sym n)
          (Chain-frame o o' (some i) (o i).next_idx is c (λ j m. h j (ground arith))),
    )

-- Where the walk with fuel for the chain ends: at the only slot, or behind the next.
walk_to_tail-last :
    (fuel : ℕ) (o : ℕ → OrderSlot) (i : ℕ) → (o i).next_idx ≡ none → walk_to_tail fuel o i ≡ i
unfolding walk_to_tail
walk_to_tail-last zero o i e = refl
walk_to_tail-last (suc fuel) o i e = rw (e, walk_to_tail)

walk_to_tail-next :
    (fuel : ℕ) (o : ℕ → OrderSlot) (i j : ℕ)
    → (o i).next_idx ≡ some j
    → walk_to_tail (suc fuel) o i ≡ walk_to_tail fuel o j
unfolding walk_to_tail
walk_to_tail-next fuel o i j e = rw (e, walk_to_tail)

-- The walk to the tail stays in the chain.
pub walk_to_tail-mem :
    (fuel : ℕ) (o : ℕ → OrderSlot) (prev : Option ℕ) (cur : ℕ) (is : List ℕ)
    → Chain o prev (some cur) is
    → mem (walk_to_tail fuel o cur) is ≡ true
unfolding walk_to_tail
walk_to_tail-mem fuel o prev cur [] c = cc
walk_to_tail-mem zero o prev cur (i ∷ is) (a, b, c) = ground arith
walk_to_tail-mem (suc fuel) o prev cur (i ∷ []) (a, b, c) =
    let e : cur ≡ i = ground arith in rw (e, walk_to_tail-last (suc fuel) o i c) (ground arith)
walk_to_tail-mem (suc fuel) o prev cur (i ∷ j ∷ js) (a, b, c) =
    let e : cur ≡ i = ground arith in
    subst (λ t. mem t (i ∷ j ∷ js) ≡ true)
      (sym (ap (walk_to_tail (suc fuel) o) e ∙ walk_to_tail-next fuel o i j c.0))
      (ground (arith, walk_to_tail-mem fuel o (some i) j (j ∷ js) (refl, c.1, c.2)))

-- The links `o'` are `o` with `slot` behind `tail`, as the last.
pub record Appends (o o' : ℕ → OrderSlot) (slot tail : ℕ) : Type 0 where
  pub tail_next : (o' tail).next_idx ≡ some slot
  pub tail_prev : (o' tail).prev_idx ≡ (o tail).prev_idx
  pub slot_prev : (o' slot).prev_idx ≡ some tail
  pub slot_next : (o' slot).next_idx ≡ none
  pub next_kept : (i : ℕ) → i ≢ tail → i ≢ slot → (o' i).next_idx ≡ (o i).next_idx
  pub prev_kept : (i : ℕ) → i ≢ tail → i ≢ slot → (o' i).prev_idx ≡ (o i).prev_idx

-- The slot after the last of a chain.
module _ (o o' : ℕ → OrderSlot) (slot : ℕ) where
  pub Chain-append :
      (fuel : ℕ) (prev : Option ℕ) (cur : ℕ) (is : List ℕ)
      → Chain o prev (some cur) is
      → length is ≤ suc fuel
      → distinct is ≡ true
      → mem slot is ≡ false
      → Appends o o' slot (walk_to_tail fuel o cur)
      → Chain o' prev (some cur) (is ++ slot ∷ [])
  Chain-append fuel prev cur [] c len d f h = cc
  Chain-append fuel prev cur (i ∷ []) (a, b, c) len d f h =
      let e : cur ≡ i = ground arith in
      let h' : Appends o o' slot i =
        subst (Appends o o' slot) (ap (walk_to_tail fuel o) e ∙ walk_to_tail-last fuel o i c) h in
      (a, h'.tail_prev ∙ b, (h'.tail_next, h'.slot_prev, h'.slot_next))
  Chain-append zero prev cur (i ∷ j ∷ js) (a, b, c) len d f h = absurd (omega arith)
  Chain-append (suc fuel) prev cur (i ∷ j ∷ js) (a, b, c) len d f h =
      let e : cur ≡ i = ground arith in
      let h' : Appends o o' slot (walk_to_tail fuel o j) =
        subst (Appends o o' slot)
          (ap (walk_to_tail (suc fuel) o) e ∙ walk_to_tail-next fuel o i j c.0) h in
      let inner = walk_to_tail-mem fuel o (some i) j (j ∷ js) (refl, c.1, c.2) in
      let apart : i ≢ walk_to_tail fuel o j = λ p. ground (arith, d, inner, p) in
      let unlike : i ≢ slot = λ p. ground (arith, f, p) in
      let rest =
        Chain-append fuel (some i) j (j ∷ js) (refl, c.1, c.2) (omega arith) (ground (arith, d))
          (ground (arith, f)) h' in
      (a, h'.prev_kept i apart unlike ∙ b, (h'.next_kept i apart unlike ∙ c.0, rest.1, rest.2))
