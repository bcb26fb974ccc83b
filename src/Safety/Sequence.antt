-- ===== src/Safety/Sequence.antt =====
-- SequenceTracker of luv_safety.hpp. Sequence numbers are uint64_t.
pub mod Gaps
pub mod Tests
use fort.Base.{
  ℕ, ◌+◌, ◌-◌, ◌%◌, ◌^◌, ◌≤◌, ◌<◌, Bool, true, false, not, ◌||◌, ltb, leb, ◌==◌, if◌then◌else◌,
}

pub data SequenceResult : Type 0 where
  first_result next_result duplicate gap out_of_order : SequenceResult

pub data SequenceGapClass : Type 0 where
  no_gap recoverable fatal : SequenceGapClass

abbrev pub max_recoverable_gap : ℕ
max_recoverable_gap = 100

pub record SequenceTracker : Type 0 where
  pub initialized : Bool
  pub next : ℕ
  pub last : ℕ
  pub gaps : ℕ
  pub gap_size : ℕ
  pub gap_class : SequenceGapClass
  pub gap_pending : Bool
  pub invalid : Bool

abbrev pub after : ℕ → ℕ
after n = (n + 1) % 2 ^ 64

-- The branch of `observe` for a sequence number behind the next.
unfoldable pub observe_gap : SequenceTracker → ℕ → SequenceTracker
observe_gap t sequence =
    let size = sequence - t.next in
    let small = leb size max_recoverable_gap in
    record t {
      gaps = (t.gaps + size) % 2 ^ 64;
      last = sequence;
      gap_size = size;
      gap_class = if small then recoverable else fatal;
      gap_pending = small;
      invalid = not small;
      next = after sequence;
    }

unfoldable pub observe : SequenceTracker → ℕ → SequenceResult × SequenceTracker
observe t sequence =
    if not t.initialized
    then (first_result, record t { initialized = true; next = after sequence; last = sequence })
    else if sequence == t.next
    then (next_result, record t { next = after t.next; last = sequence })
    else if ltb sequence t.next
    then (if after sequence == t.next then duplicate else out_of_order, t)
    else (gap, observe_gap t sequence)

unfoldable pub acknowledge_retransmit : SequenceTracker → ℕ → ℕ → Bool × SequenceTracker
acknowledge_retransmit t first_missing last_missing =
    if not t.gap_pending
      || ltb last_missing first_missing
      || not ((last_missing - first_missing + 1) % 2 ^ 64 == t.gap_size)
    then (false, t)
    else (true, record t { gap_pending = false; gap_class = no_gap; gap_size = 0 })

abbrev pub reset : SequenceTracker
reset = record {
  initialized = false;
  next = 0;
  last = 0;
  gaps = 0;
  gap_size = 0;
  gap_class = no_gap;
  gap_pending = false;
  invalid = false;
}
