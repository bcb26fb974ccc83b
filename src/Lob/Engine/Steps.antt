-- ===== src/Lob/Engine/Steps.antt =====
-- The parts of the handlers of luv_lob.hpp keep every side of every book well formed.
use fort.Base.{
  ℕ, ◌-◌, ◌<◌, ◌≡◌, inl, inr, true, false, ◌&&◌, arith, ltb, ltb→lt, Bool-cases, ◌==◌, subst, sym,
}
use fort.Lob.Level.{PriceLevel}
use fort.Lob.Level.Consistent.{IsConsistent}
use fort.Lob.Ladder.{Ladder, price_at, close_gap, drop_last, put_level}
use fort.Lob.Ladder.Live.{
  IsLive, IsLadder, IsAlmost, IsHole, IsAlmost-IsHole, put_level-IsHole, IsLadder-IsAlmost,
  IsAlmost-IsLadder, put_level-IsAlmost, put_level-IsLadder, removed-IsLadder, dropped-IsLadder,
}
use fort.Lob.Book.{
  LobEngine, set_ladder, store_level, level_of, refresh_level_locations, shift_levels,
  remove_level_if_empty,
}

-- Every side of every symbol is within its depth, strictly sorted by price, and made of levels that
-- hold orders, whose total and count are those of their active slots.
abbrev pub IsBook : LobEngine → Type 0
IsBook e = (symbol side : ℕ) → IsLadder side (e.ladders symbol side)

-- The same in the middle of a handler, which is at work on the level `at` of one side.
pub record IsBookBut (symbol side at : ℕ) (e : LobEngine) : Type 0 where
  pub others : (s d : ℕ) → (s == symbol && d == side) ≡ false → IsLadder d (e.ladders s d)
  pub almost : IsAlmost side at (e.ladders symbol side)

-- The same where the level `at` is in disorder until it is stored again.
pub record IsBookHole (symbol side at : ℕ) (e : LobEngine) : Type 0 where
  pub others : (s d : ℕ) → (s == symbol && d == side) ≡ false → IsLadder d (e.ladders s d)
  pub hole : IsHole side at (e.ladders symbol side)

pub IsBookBut-IsBookHole :
    (symbol side at : ℕ) (e : LobEngine) → IsBookBut symbol side at e → IsBookHole symbol side at e
IsBookBut-IsBookHole symbol side at e b = record {
  others = b.others;
  hole = IsAlmost-IsHole side at (e.ladders symbol side) b.almost;
}

same_sides : (symbol side s d : ℕ) → (s == symbol && d == side) ≡ true → (s ≡ symbol) × (d ≡ side)
same_sides symbol side s d h = ground arith

pub set_ladder_self :
    (e : LobEngine) (symbol side : ℕ) (l : Ladder)
    → (set_ladder e symbol side l).ladders symbol side ≡ l
set_ladder_self e symbol side l = ground arith

ladder_set :
    (e : LobEngine) (symbol side : ℕ) (l : Ladder)
    → ((s d : ℕ) → (s == symbol && d == side) ≡ false → IsLadder d (e.ladders s d))
    → IsLadder side l
    → IsBook (set_ladder e symbol side l)
ladder_set e symbol side l o h s d = elim (Bool-cases (s == symbol && d == side)) [
  | inl q ↦ rw q (subst (λ k. IsLadder k l) (sym (same_sides symbol side s d q).1) h)
  | inr q ↦ rw q (o s d q)
]

pub ladder_set_but :
    (e : LobEngine) (symbol side : ℕ) (l : Ladder) (at : ℕ)
    → ((s d : ℕ) → (s == symbol && d == side) ≡ false → IsLadder d (e.ladders s d))
    → IsAlmost side at l
    → IsBookBut symbol side at (set_ladder e symbol side l)
ladder_set_but e symbol side l at o h = record {
  others = λ s d q. rw q (o s d q);
  almost = subst (IsAlmost side at) (sym (set_ladder_self e symbol side l)) h;
}

module _ (e : LobEngine) (symbol side : ℕ) where
  pub IsBook-IsBookBut :
      (at : ℕ) → IsBook e → at < (e.ladders symbol side).count → IsBookBut symbol side at e
  IsBook-IsBookBut at b h = record {
    others = λ s d _. b s d;
    almost = IsLadder-IsAlmost side at (e.ladders symbol side) (b symbol side) h;
  }

  pub others_shifted :
      (l : Ladder)
      → ((s d : ℕ) → (s == symbol && d == side) ≡ false → IsLadder d (e.ladders s d))
      → (s d : ℕ) → (s == symbol && d == side) ≡ false
      → IsLadder d ((set_ladder e symbol side l).ladders s d)
  others_shifted l o s d q = rw q (o s d q)

  -- The level at work is stored, consistent and at its price; or live, which ends the work.
  pub store_level-IsBookBut :
      (at : ℕ) (lvl : PriceLevel)
      → IsBookHole symbol side at e
      → IsConsistent lvl
      → lvl.price ≡ price_at (e.ladders symbol side) at
      → IsBookBut symbol side at (store_level e symbol side at lvl)
  store_level-IsBookBut at lvl b c p =
      ladder_set_but e symbol side (put_level (e.ladders symbol side) at lvl) at b.others
        (put_level-IsAlmost side at (e.ladders symbol side) lvl b.hole c p)

  pub store_level-IsBook :
      (at : ℕ) (lvl : PriceLevel)
      → IsBookHole symbol side at e
      → IsLive lvl
      → lvl.price ≡ price_at (e.ladders symbol side) at
      → IsBook (store_level e symbol side at lvl)
  store_level-IsBook at lvl b c p =
      ladder_set e symbol side (put_level (e.ladders symbol side) at lvl) b.others
        (put_level-IsLadder side at (e.ladders symbol side) lvl b.hole c p)

  pub store_level-IsBookHole :
      (at : ℕ) (lvl : PriceLevel)
      → IsBookHole symbol side at e
      → lvl.price ≡ price_at (e.ladders symbol side) at
      → IsBookHole symbol side at (store_level e symbol side at lvl)
  store_level-IsBookHole at lvl b p = record {
    others = others_shifted (put_level (e.ladders symbol side) at lvl) b.others;
    hole =
        subst (IsHole side at)
          (sym (set_ladder_self e symbol side (put_level (e.ladders symbol side) at lvl)))
          (put_level-IsHole side at (e.ladders symbol side) lvl b.hole p);
  }

  -- A level that holds orders after all ends the work.
  pub IsBookBut-IsBook :
      (at : ℕ) → IsBookBut symbol side at e → 0 < (level_of e symbol side at).order_count → IsBook e
  IsBookBut-IsBook at b h s d = elim (Bool-cases (s == symbol && d == side)) [
    | inl w ↦
        let (p, r) = same_sides symbol side s d w in
        rw (p, r) (IsAlmost-IsLadder side at (e.ladders symbol side) b.almost h)
    | inr w ↦ b.others s d w
  ]

  pub level_of-store_level :
      (at : ℕ) (lvl : PriceLevel) → level_of (store_level e symbol side at lvl) symbol side at ≡ lvl
  level_of-store_level at lvl = ground arith

  -- Removing the level if it is empty ends the work on it.
  -- The ladder that a shift leaves is read back from the state.
  pub read_back :
      (P : Ladder → Type 0) (f : Ladder → Ladder) (l : Ladder)
      → P (f l)
      → P (f ((set_ladder e symbol side l).ladders symbol side))
  read_back P f l h = subst (λ k. P (f k)) (sym (set_ladder_self e symbol side l)) h

  pub remove_level_if_empty-IsBook :
      (at : ℕ) → IsBookBut symbol side at e → IsBook (remove_level_if_empty e symbol side at)
  unfolding remove_level_if_empty shift_levels refresh_level_locations
  remove_level_if_empty-IsBook at b =
      elim (Bool-cases (ltb 0 (level_of e symbol side at).order_count)) [
        | inl q ↦ rw q (IsBookBut-IsBook at b (ltb→lt _ _ q))
        | inr q ↦ elim (Bool-cases (ltb at ((e.ladders symbol side).count - 1))) [
          | inl m ↦
              rw (q, empty_side, m)
                (ladder_set (set_ladder e symbol side (close_gap (e.ladders symbol side) at)) symbol
                  side (drop_last (_))
                  (others_shifted (close_gap (e.ladders symbol side) at) b.others)
                  (read_back (IsLadder side) drop_last (close_gap (e.ladders symbol side) at)
                    (removed-IsLadder side at (e.ladders symbol side) b.almost (ltb→lt _ _ m))))
          | inr m ↦
              rw (q, empty_side, m)
                (ladder_set e symbol side (drop_last (e.ladders symbol side)) b.others (
                  dropped-IsLadder side at (e.ladders symbol side) b.almost
                    (ground (arith, b.almost.inside))))
        ]
      ]
    where
      empty_side : ((e.ladders symbol side).count == 0) ≡ false
      empty_side = ground (arith, b.almost.inside)
