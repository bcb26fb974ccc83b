-- ===== src/Lob/Level/Unlink.antt =====
-- A slot that leaves the list of a level in luv_lob.hpp.
use fort.Base.{
  ℕ, ◌≡◌, refl, sym, ap, subst, ◌∙◌, ◌≢◌, ◌⊎◌, inl, inr, true, false, Option, none, some, arith,
  List, [], ◌∷◌, ◌==◌, if◌then◌else◌, ==_iff, Bool-cases, Option-cases,
}
use fort.Lob.Level.{OrderSlot}
use fort.Lob.Level.Chain.{mem, distinct, erase, Chain, Chain-frame}

-- The slots before and behind `slot` in a chain.
module _ (o : ℕ → OrderSlot) (slot : ℕ) where
  Chain-next :
      (prev cur : Option ℕ) (is : List ℕ) (k : ℕ)
      → Chain o prev cur is
      → mem slot is ≡ true
      → (o slot).next_idx ≡ some k
      → mem k is ≡ true
  Chain-next prev cur [] k c m n = cc
  Chain-next prev cur (i ∷ []) k (a, b, c) m n =
      let e : slot ≡ i = ground arith in ground (arith, ap (λ x. (o x).next_idx) e)
  Chain-next prev cur (i ∷ j ∷ js) k (a, b, c) m n = elim (Bool-cases (slot == i)) [
    | inl q ↦ let e = (==_iff slot i).0 q in ground (arith, ap (λ x. (o x).next_idx) e, c.0)
    | inr q ↦
        let rest = Chain-next (some i) (o i).next_idx (j ∷ js) k c (ground arith) n in ground arith
  ]

  pub Chain-prev :
      (prev cur : Option ℕ) (is : List ℕ)
      → Chain o prev cur is
      → mem slot is ≡ true
      → ((cur ≡ some slot) × ((o slot).prev_idx ≡ prev))
        ⊎ ((q : ℕ) × (mem q is ≡ true) × ((o slot).prev_idx ≡ some q))
  Chain-prev prev cur [] c m = cc
  Chain-prev prev cur (i ∷ is) (a, b, c) m = elim (Bool-cases (slot == i)) [
    | inl q ↦ let e = (==_iff slot i).0 q in inl (rw e a, rw e b)
    | inr q ↦ elim (Chain-prev (some i) (o i).next_idx is c (ground arith)) [
      | inl h ↦ inr (i, ground arith, h.1)
      | inr (k, mk, h) ↦ inr (k, ground (arith, mk), h)
    ]
  ]

  pub Chain-first :
      (prev : Option ℕ) (is : List ℕ) → Chain o prev (some slot) is → (o slot).prev_idx ≡ prev
  Chain-first prev [] c = cc
  Chain-first prev (j ∷ js) (a, b, c) = let e : slot ≡ j = ground arith in rw e b

  -- A slot is not its own neighbour.
  pub Chain-apart :
      (prev cur : Option ℕ) (is : List ℕ)
      → Chain o prev cur is
      → distinct is ≡ true
      → mem slot is ≡ true
      → ((k : ℕ) → prev ≡ some k → mem k is ≡ false)
      → ((o slot).next_idx ≢ some slot) × ((o slot).prev_idx ≢ some slot)
  Chain-apart prev cur [] c d m p = cc
  Chain-apart prev cur (i ∷ is) (a, b, c) d m p = elim (Bool-cases (slot == i)) [
    | inl q ↦
        let e = (==_iff slot i).0 q in
        (
          λ h.
              chain_start i is c (ground (arith, d))
                (ap (λ x. (o x).next_idx) (sym e) ∙ h ∙ ap some e),
          λ h. ground (arith, p i (sym b ∙ ap (λ x. (o x).prev_idx) (sym e) ∙ h ∙ ap some e)),
        )
    | inr q ↦
        Chain-apart (some i) (o i).next_idx is c (ground (arith, d)) (ground arith)
          (λ k h. ground (arith, d, h))
  ]
    where
      chain_start :
          (i : ℕ) (is : List ℕ)
          → Chain o (some i) (o i).next_idx is
          → mem i is ≡ false
          → (o i).next_idx ≢ some i
      chain_start i [] c f h = cc
      chain_start i (j ∷ js) (a, b, c) f h = ground (arith, a, h, f)

-- The links `o'` are `o` with the neighbours of `slot` joined.
pub record Unlinks (o o' : ℕ → OrderSlot) (slot : ℕ) : Type 0 where
  pub prev_joined : (k : ℕ) → (o slot).next_idx ≡ some k → (o' k).prev_idx ≡ (o slot).prev_idx
  pub next_joined : (k : ℕ) → (o slot).prev_idx ≡ some k → (o' k).next_idx ≡ (o slot).next_idx
  pub prev_kept : (k : ℕ) → k ≢ slot → (o slot).next_idx ≢ some k → (o' k).prev_idx ≡ (o k).prev_idx
  pub next_kept : (k : ℕ) → k ≢ slot → (o slot).prev_idx ≢ some k → (o' k).next_idx ≡ (o k).next_idx

-- The start of a chain that loses `slot`, whose successor is `next`.
abbrev pub skip : ℕ → Option ℕ → Option ℕ → Option ℕ
skip slot next none = none
skip slot next (some i) = if slot == i then next else some i

module _ (o o' : ℕ → OrderSlot) (slot : ℕ) (u : Unlinks o o' slot) where
  -- `slot` is the first.
  Chain-erase_first :
      (prev : Option ℕ) (is : List ℕ)
      → Chain o (some slot) (o slot).next_idx is
      → (o slot).prev_idx ≡ prev
      → mem slot is ≡ false
      → distinct is ≡ true
      → ((k : ℕ) → prev ≡ some k → mem k is ≡ false)
      → Chain o' prev (o slot).next_idx is
  Chain-erase_first prev [] c e f d p = c
  Chain-erase_first prev (j ∷ js) (a, b, c) e f d p =
      let behind : (k : ℕ) → (o slot).next_idx ≡ some k → k ≡ j = λ k h. ground (arith, a, h) in
      let next : (k : ℕ) → mem k (j ∷ js) ≡ true → (o' k).next_idx ≡ (o k).next_idx = λ k h.
        u.next_kept k (λ q. ground (arith, f, q, h)) (λ q. ground (arith, p k (sym e ∙ q), h)) in
      (
        a,
        u.prev_joined j a ∙ e,
        subst (λ k. Chain o' (some j) k js) (sym (next j (ground arith)))
            (Chain-frame o o' (some j) (o j).next_idx js c (λ k h. (
              next k (ground (arith, h)),
              u.prev_kept k (λ q. ground (arith, f, q, h)) (λ q. ground (arith, d, behind k q, h)),
            ))),
      )

  pub Chain-erase :
      (prev cur : Option ℕ) (is : List ℕ)
      → Chain o prev cur is
      → distinct is ≡ true
      → mem slot is ≡ true
      → ((k : ℕ) → prev ≡ some k → mem k is ≡ false)
      → Chain o' prev (skip slot (o slot).next_idx cur) (erase slot is)
  Chain-erase prev cur [] c d m p = cc
  Chain-erase prev cur (i ∷ is) (a, b, c) d m p = elim (Bool-cases (slot == i)) [
    | inl q ↦
        let e = (==_iff slot i).0 q in
        rw (a, q)
          (Chain-erase_first prev is (subst (λ x. Chain o (some x) (o x).next_idx is) (sym e) c)
            (ap (λ x. (o x).prev_idx) e ∙ b) (ground (arith, d, e)) (ground (arith, d))
            (λ k h. ground (arith, p k h)))
    | inr q ↦
        let inside : mem slot is ≡ true = ground arith in
        let unlike : i ≢ slot = λ h. ground (arith, q, h) in
        let rest =
          Chain-erase (some i) (o i).next_idx is c (ground (arith, d)) inside
            (λ k h. ground (arith, d, h)) in
        rw (a, q)
          (
            refl,
            u.prev_kept i unlike (λ h.
                  ground (arith, d, Chain-next o slot (some i) (o i).next_idx is i c inside h))
                ∙ b,
            subst (λ k. Chain o' (some i) k (erase slot is))
                (sym (joined i is c (ground (arith, d)) unlike inside)) rest,
          )
  ]
    where
      joined :
          (i : ℕ) (is : List ℕ)
          → Chain o (some i) (o i).next_idx is
          → mem i is ≡ false
          → i ≢ slot
          → mem slot is ≡ true
          → (o' i).next_idx ≡ skip slot (o slot).next_idx (o i).next_idx
      joined i is c f unlike m = elim (Chain-prev o slot (some i) (o i).next_idx is c m) [
        | inl (h, g) ↦ rw h (u.next_joined i g ∙ ground arith)
        | inr (k, mk, g) ↦
            let far : k ≢ i = λ e. ground (arith, mk, f, e) in
            u.next_kept i unlike (λ e. ground (arith, g, e, far))
            ∙ elim (Option-cases (o i).next_idx) [
              | inl e ↦ rw e
              | inr (w, e) ↦
                  let first = Chain-first o w (some i) is (rw e at c) in
                  let other : slot ≢ w =
                    λ h. far (ground (arith, ap (λ x. (o x).prev_idx) h, g, first)) in
                  rw e (ground (arith, other))
            ]
      ]
