-- ===== src/Lob/Ladder/Order.antt =====
-- The order of prices on a side of a book, and the sorted ladders.
use fort.Base.{ℕ, ◌<◌, ◌≡◌, true, false, arith}
use fort.Base.Int.{ℤ, eqb_ℤ}
use fort.Lob.Ladder.{Ladder, price_at, ahead}

pub ahead_trans :
    (side : ℕ) (p q r : ℤ) → ahead side p q ≡ true → ahead side q r ≡ true → ahead side p r ≡ true
unfolding ahead
ahead_trans side p q r a b = ground arith

pub ahead_irrefl : (side : ℕ) (p : ℤ) → ahead side p p ≡ false
unfolding ahead
ahead_irrefl side p = ground arith

pub ahead-total :
    (side : ℕ) (p q : ℤ) → ahead side p q ≡ false → eqb_ℤ q p ≡ false → ahead side q p ≡ true
unfolding ahead
ahead-total side p q a b = ground arith

pub eqb_ℤ-eq : (p q : ℤ) → eqb_ℤ p q ≡ true → p ≡ q
eqb_ℤ-eq p q h = ground arith

pub eqb_ℤ-refl : (p : ℤ) → eqb_ℤ p p ≡ true
eqb_ℤ-refl p = ground arith

-- Every active level is ahead of those behind it.
abbrev pub IsSorted : ℕ → Ladder → Type 0
IsSorted side l = (i j : ℕ) → i < j → j < l.count → ahead side (price_at l i) (price_at l j) ≡ true
