-- ===== src/Lob/Ladder/Search.antt =====
-- The binary search of `find_level` in luv_lob.hpp against the levels.
use fort.Base.{
  ℕ, zero, suc, ◌+◌, ◌-◌, ◌/◌, ◌≤◌, ◌<◌, ◌≡◌, ◌≢◌, inl, inr, true, false, none, some, arith, ltb,
  ltb→lt, Bool-cases, subst, sym, ◌∙◌,
}
use mathlib.Core.Bool.{false≢true}
use fort.Base.Int.{ℤ, eqb_ℤ}
use fort.Lob.Ladder.{Ladder, price_at, ahead, search_level, find_level}
use fort.Lob.Ladder.Order.{IsSorted, ahead_trans, ahead_irrefl, eqb_ℤ-eq, eqb_ℤ-refl}

module _ (side : ℕ) (l : Ladder) (price : ℤ) where
  search_level-some :
      (fuel low bound i : ℕ)
      → search_level fuel side l price low bound ≡ some i
      → (low ≤ i) × (i < bound) × (price_at l i ≡ price)
  unfolding search_level
  search_level-some zero low bound i h = cc
  search_level-some (suc fuel) low bound i h =
      let mid = low + (bound - 1 - low) / 2 in
      ground (
        arith,
        eqb_ℤ-eq (price_at l mid) price,
        search_level-some fuel low mid i,
        search_level-some fuel (mid + 1) bound i,
      )

  module _ (sorted : IsSorted side l) where
    -- With fuel for the range, the search misses no level in it.
    search_level-none :
        (fuel low bound i : ℕ)
        → bound ≤ l.count
        → bound - low < fuel
        → search_level fuel side l price low bound ≡ none
        → low ≤ i
        → i < bound
        → price_at l i ≢ price
    unfolding search_level
    search_level-none zero low bound i d f h a b e = absurd (omega arith)
    search_level-none (suc fuel) low bound i d f h a b e =
        let mid = low + (bound - 1 - low) / 2 in
        let near : eqb_ℤ (price_at l mid) price ≡ false = ground arith in
        let apart : i ≢ mid = λ p.
          false≢true (
            sym near
            ∙ subst (λ k. eqb_ℤ (price_at l k) price ≡ true) p (rw e (eqb_ℤ-refl price))) in
        elim (Bool-cases (ahead side price (price_at l mid))) [
          | inl c ↦
              let left : i < mid = elim (Bool-cases (ltb mid i)) [
                | inl g ↦
                    let q = sorted mid i (ltb→lt mid i g) (omega arith) in
                    absurd (
                      ground (
                        arith,
                        q,
                        ahead_trans side price (price_at l mid) price c (rw e at q),
                        ahead_irrefl side price,
                      ))
                | inr g ↦ ground (arith, apart)
              ] in
              search_level-none fuel low mid i (omega arith) (omega arith) (ground arith) a left e
          | inr c ↦
              let right : mid < i = elim (Bool-cases (ltb i mid)) [
                | inl g ↦
                    let q = sorted i mid (ltb→lt i mid g) (omega arith) in
                    absurd (false≢true (sym c ∙ rw e at q))
                | inr g ↦ ground (arith, apart)
              ] in
              search_level-none fuel (mid + 1) bound i d (omega arith) (ground arith) (omega arith)
                b e
        ]

    -- `find_level` on a sorted side: an index is that of an active level with the price, and -1
    -- means that no active level has it.
    pub find_level_exact :
        ((i : ℕ) → find_level side l price ≡ some i → (i < l.count) × (price_at l i ≡ price))
        × (find_level side l price ≡ none → (i : ℕ) → i < l.count → price_at l i ≢ price)
    unfolding find_level
    find_level_exact = (
      λ i h. let r = search_level-some (suc l.count) 0 l.count i h in (r.1, r.2),
      λ h i b.
          search_level-none (suc l.count) 0 l.count i (omega arith) (omega arith) h (omega arith) b,
    )
