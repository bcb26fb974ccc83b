-- ===== src/Safety/Sequence/Tests.antt =====
-- A feed of luv_safety.hpp's SequenceTracker with a gap, a duplicate and a late message.
use fort.Base.{ℕ, ◌+◌, ◌≡◌, refl, true, false, List, [], ◌∷◌}
use fort.Safety.Sequence.{SequenceTracker, fatal, observe, observe_gap, reset}
use fort.Safety.Sequence.Gaps.{observe_all, observe_all-accounts}

abbrev feed : List ℕ
feed = 10 ∷ 11 ∷ 14 ∷ 14 ∷ 12 ∷ 15 ∷ []

observe_all-accounts_example :
    (observe_all reset feed).1.next
    ≡ 10 + (observe_all reset feed).0 + (observe_all reset feed).1.gaps
observe_all-accounts_example = observe_all-accounts 10 (11 ∷ 14 ∷ 14 ∷ 12 ∷ 15 ∷ []) refl

-- A tracker that a fatal gap has made invalid.
abbrev broken : SequenceTracker
broken = record reset {
  initialized = true;
  next = 500;
  gap_class = fatal;
  gap_size = 300;
  invalid = true;
}

-- A small gap behind the fatal one clears its flag.
broken-recovers : ((observe broken 502).1.invalid ≡ false) × ((observe broken 502).1.gap_size ≡ 2)
unfolding observe observe_gap
broken-recovers = (refl, refl)
