-- ===== src/Market/Auction/Prices.antt =====
-- The price list of luv_auction.hpp and its order.
use fort.Base.{
  ◌≡◌, ◌≢◌, ◌⊎◌, inl, inr, refl, true, ◌&&◌, ◌||◌, List, [], ◌∷◌, ◌++◌, arith, Bool-cases,
}
use fort.Base.Int.{ℤ, ◌≤ℤ◌, ◌<ℤ◌, ltb_ℤ, leb_ℤ, eqb_ℤ}
use fort.Market.Auction.{exists_price, sort_insert, sort}

pub eqb_ℤ-eq : (a b : ℤ) → eqb_ℤ a b ≡ true → a ≡ b
eqb_ℤ-eq a b h = ground arith

-- Prices in a list.
pub exists_price-append :
    (ps : List ℤ) (q p : ℤ) → exists_price (ps ++ q ∷ []) p ≡ (exists_price ps p || eqb_ℤ q p)
unfolding exists_price
exists_price-append [] q p = ground arith
exists_price-append (r ∷ ps) q p = ground (arith, exists_price-append ps q p)

exists_price-sort_insert :
    (q : ℤ) (ps : List ℤ) (p : ℤ)
    → exists_price (sort_insert q ps) p ≡ (eqb_ℤ q p || exists_price ps p)
unfolding exists_price sort_insert
exists_price-sort_insert q [] p = refl
exists_price-sort_insert q (r ∷ ps) p = ground (arith, exists_price-sort_insert q ps p)

pub exists_price-sort : (ps : List ℤ) (p : ℤ) → exists_price (sort ps) p ≡ exists_price ps p
unfolding exists_price sort
exists_price-sort [] p = refl
exists_price-sort (r ∷ ps) p =
    ground (arith, exists_price-sort ps p, exists_price-sort_insert r (sort ps) p)

pub no_price : (p : ℤ) → exists_price [] p ≢ true
unfolding exists_price
no_price p h = cc

pub List-cases : (ps : List ℤ) → (ps ≡ []) ⊎ ((q : ℤ) × (qs : List ℤ) × (ps ≡ q ∷ qs))
List-cases [] = inl refl
List-cases (q ∷ qs) = inr (q, qs, refl)

-- The least price of a list that is at least `p`, and the greatest of all.
pub record LeastFrom (ps : List ℤ) (p : ℤ) : Type 0 where
  pub l : ℤ
  pub listed : exists_price ps l ≡ true
  pub from : p ≤ℤ l
  pub least : (x : ℤ) → exists_price ps x ≡ true → p ≤ℤ x → l ≤ℤ x

pub record Greatest (ps : List ℤ) : Type 0 where
  pub l : ℤ
  pub listed : exists_price ps l ≡ true
  pub greatest : (x : ℤ) → exists_price ps x ≡ true → x ≤ℤ l

pub least_from :
    (ps : List ℤ) (p : ℤ) → LeastFrom ps p ⊎ ((x : ℤ) → exists_price ps x ≡ true → x <ℤ p)
unfolding exists_price
least_from [] p = inr (λ x h. cc)
least_from (q ∷ ps) p = elim (least_from ps p) [
  | inl w ↦ elim (Bool-cases (leb_ℤ p q && ltb_ℤ q w.l)) [
    | inl better ↦ inl (record {
      l = q;
      listed = ground arith;
      from = ground (arith, better);
      least = λ x h k. ground (arith, h, k, better, w.least x);
    })
    | inr worse ↦ inl (record {
      l = w.l;
      listed = ground (arith, w.listed);
      from = w.from;
      least = λ x h k. ground (arith, h, k, worse, w.least x, eqb_ℤ-eq q x);
    })
  ]
  | inr below ↦ elim (Bool-cases (leb_ℤ p q)) [
    | inl good ↦ inl (record {
      l = q;
      listed = ground arith;
      from = ground (arith, good);
      least = λ x h k. ground (arith, h, k, below x);
    })
    | inr bad ↦ inr (λ x h. ground (arith, h, bad, below x))
  ]
]

pub Greatest-of : (q : ℤ) (ps : List ℤ) → Greatest (q ∷ ps)
unfolding exists_price
Greatest-of q [] = record { l = q; listed = ground arith; greatest = λ x h. ground (arith, h) }
Greatest-of q (r ∷ ps) =
    let w = Greatest-of r ps in
    elim (Bool-cases (leb_ℤ w.l q)) [
      | inl up ↦ record {
        l = q;
        listed = ground arith;
        greatest = λ x h. ground (arith, h, up, w.greatest x);
      }
      | inr down ↦ record {
        l = w.l;
        listed = ground (arith, w.listed);
        greatest = λ x h. ground (arith, h, down, w.greatest x);
      }
    ]
