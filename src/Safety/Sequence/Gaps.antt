-- ===== src/Safety/Sequence/Gaps.antt =====
-- What SequenceTracker of luv_safety.hpp counts, and how it classifies the last gap.
use fort.Base.{
  ℕ, ◌+◌, ◌-◌, ◌^◌, ◌<◌, ◌≡◌, refl, ◌∙◌, Bool, true, false, not, List, [], ◌∷◌, arith, ltb, leb,
  ◌==◌, if◌then◌else◌,
}
use fort.Safety.Sequence.{
  SequenceResult, first_result, next_result, duplicate, gap, out_of_order, recoverable, fatal,
  SequenceTracker, observe, observe_gap, reset,
}

-- A message that is passed on.
abbrev pub taken : SequenceResult → ℕ
taken first_result = 1
taken next_result = 1
taken gap = 1
taken duplicate = 0
taken out_of_order = 0

-- A run over sequence numbers: how many messages were taken, and the tracker.
pub observe_all : SequenceTracker → List ℕ → ℕ × SequenceTracker
observe_all t [] = (0, t)
observe_all t (s ∷ ss) =
    let (r, t') = observe t s in let (n, t'') = observe_all t' ss in (taken r + n, t'')

-- Every sequence number in the list is one that the successor does not wrap.
abbrev pub below_wrap : List ℕ → Bool
below_wrap [] = true
below_wrap (s ∷ ss) = if ltb s (2 ^ 64 - 1) then below_wrap ss else false

-- From sequence number `first` on, `n` messages were taken.
pub record IsTracking (t : SequenceTracker) (first n : ℕ) : Type 0 where
  pub started : t.initialized ≡ true
  pub accounted : t.next ≡ first + n + t.gaps
  pub fits : t.next < 2 ^ 64

module _ (t : SequenceTracker) (first n s : ℕ) where
  observe-IsTracking :
      IsTracking t first n
      → s < 2 ^ 64 - 1
      → IsTracking (observe t s).1 first (n + taken (observe t s).0)
  unfolding observe observe_gap
  observe-IsTracking v h = record {
    started = ground (arith, v.started);
    accounted = ground (arith, v.started, v.accounted, v.fits, h);
    fits = ground (arith, v.fits, h);
  }

observe_all-IsTracking :
    (t : SequenceTracker) (first n : ℕ) (ss : List ℕ)
    → IsTracking t first n
    → below_wrap ss ≡ true
    → let r = observe_all t ss in IsTracking r.1 first (n + r.0)
unfolding observe_all
observe_all-IsTracking t first n [] v h = let none_more : n + 0 ≡ n = omega arith in rw none_more v
observe_all-IsTracking t first n (s ∷ ss) v h =
    let r = observe t s in
    let rest =
      observe_all-IsTracking r.1 first (n + taken r.0) ss
        (observe-IsTracking t first n s v (ground (arith, h))) (ground (arith, h)) in
    let regroup : n + (taken r.0 + (observe_all r.1 ss).0)
        ≡ n + taken r.0 + (observe_all r.1 ss).0 =
      omega arith in
    rw regroup rest

-- A tracker that was reset and observes a feed of at least one message, in any order, in which no sequence
-- number is 2^64 - 1, whose successor wraps: it accounts for every sequence number from the first to the one
-- it expects next, as each was taken or is counted as a gap.
pub observe_all-accounts :
    (s : ℕ) (ss : List ℕ)
    → below_wrap (s ∷ ss) ≡ true
    → let (n, t) = observe_all reset (s ∷ ss) in t.next ≡ s + n + t.gaps
unfolding observe_all observe
observe_all-accounts s ss h =
    let start : IsTracking (observe reset s).1 s 1 = record {
      started = refl;
      accounted = ground (arith, h);
      fits = omega arith;
    } in
    let v = observe_all-IsTracking (observe reset s).1 s 1 ss start (ground (arith, h)) in
    v.accounted ∙ ground arith

-- A sequence number that is `size` behind the one that a started tracker expects: it is reported as a
-- gap of that size, and the flags are those of this gap alone, whatever they were before: pending if
-- the size is at most 100, and invalid otherwise.
pub observe-gap :
    (t : SequenceTracker) (size : ℕ)
    → t.initialized ≡ true
    → 0 < size
    → let (r, t') = observe t (t.next + size) in
      (r ≡ gap)
      × (t'.gap_size ≡ size)
      × (t'.gap_pending ≡ leb size 100)
      × (t'.invalid ≡ not (leb size 100))
      × (t'.gap_class ≡ (if leb size 100 then recoverable else fatal))
unfolding observe observe_gap
observe-gap t size started h =
    let width : t.next + size - t.next ≡ size = omega arith in
    rw (started, (not_same t.next size h), (not_below t.next size), width)
      (refl, refl, refl, refl, refl)
  where
    not_same : (a b : ℕ) → 0 < b → ((a + b) == a) ≡ false
    not_same a b h = ground arith

    not_below : (a b : ℕ) → ltb (a + b) a ≡ false
    not_below a b = ground arith
