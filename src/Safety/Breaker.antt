-- ===== src/Safety/Breaker.antt =====
-- CircuitBreaker of luv_safety.hpp. Each call is one step on the fields, which are atomics in the source;
-- a loop of compare-and-swap ends with the swap or at the bound. uint32_t counters wrap.
pub mod Closed
pub mod Open
pub mod Tests
use fort.Base.{ℕ, ◌+◌, ◌-◌, ◌%◌, ◌^◌, Bool, true, false, ◌&&◌, ◌||◌, ltb, leb, ◌==◌, if◌then◌else◌}
use fort.Base.Int.{ℤ, pos, ltb_ℤ, leb_ℤ}

pub data CircuitBreakerState : Type 0 where
  closed open_state half_open : CircuitBreakerState

pub record CircuitBreaker : Type 0 where
  pub max_failures : ℕ
  pub cool_down_ns : ℕ
  pub trip_timestamp_ns : ℕ
  pub failures : ℕ
  pub consecutive_rejections : ℕ
  pub max_consecutive_rejections : ℕ
  pub half_open_enabled : Bool
  pub half_open_max_probes : ℕ
  pub half_open_successes_needed : ℕ
  pub half_open_probes_issued : ℕ
  pub half_open_successes : ℕ
  pub max_rate_per_window : ℕ
  pub rate_window_ns : ℕ
  pub window_start_ns : ℕ
  pub window_count : ℕ
  pub max_loss_limit : ℤ
  pub state : CircuitBreakerState
  pub tripped : Bool

abbrev at_least_one : ℕ → ℕ
at_least_one n = if n == 0 then 1 else n

abbrev pub bump32 : ℕ → ℕ
bump32 n = (n + 1) % 2 ^ 32

-- The constructor, and the member initialisers.
abbrev pub circuit_breaker : ℕ → ℕ → CircuitBreaker
circuit_breaker max_failures cool_down_ns = record {
  max_failures = at_least_one max_failures;
  cool_down_ns = cool_down_ns;
  trip_timestamp_ns = 0;
  failures = 0;
  consecutive_rejections = 0;
  max_consecutive_rejections = 0;
  half_open_enabled = false;
  half_open_max_probes = 1;
  half_open_successes_needed = 1;
  half_open_probes_issued = 0;
  half_open_successes = 0;
  max_rate_per_window = 0;
  rate_window_ns = 0;
  window_start_ns = 0;
  window_count = 0;
  max_loss_limit = pos 0;
  state = closed;
  tripped = false;
}

-- `tripped()`, which reads the state; the flag of that name is only written.
abbrev pub is_tripped : CircuitBreaker → Bool
is_tripped b = elim b.state [ open_state ↦ true | closed ↦ false | half_open ↦ false ]

unfoldable pub trip : CircuitBreaker → ℕ → CircuitBreaker
trip b timestamp = record b { trip_timestamp_ns = timestamp; state = open_state; tripped = true }

unfoldable pub reset : CircuitBreaker → CircuitBreaker
reset b = record b {
  failures = 0;
  consecutive_rejections = 0;
  half_open_probes_issued = 0;
  half_open_successes = 0;
  trip_timestamp_ns = 0;
  state = closed;
  tripped = false;
}

-- The count of a failure, and its bound.
unfoldable pub count_failure : CircuitBreaker → ℕ → CircuitBreaker
count_failure b timestamp =
    let b' = if ltb b.failures b.max_failures then record b { failures = b.failures + 1 } else b in
    if leb b.max_failures (bump32 b.failures) then trip b' timestamp else b'

unfoldable pub record_failure : CircuitBreaker → ℕ → CircuitBreaker
record_failure b timestamp = elim b.state [
  | half_open ↦ trip b timestamp
  | closed ↦ count_failure b timestamp
  | open_state ↦ count_failure b timestamp
]

unfoldable pub record_rejection : CircuitBreaker → ℕ → CircuitBreaker
record_rejection b timestamp =
    let b' = record b { consecutive_rejections = bump32 b.consecutive_rejections } in
    if ltb 0 b.max_consecutive_rejections
    then (if leb b.max_consecutive_rejections b'.consecutive_rejections
        then trip b' timestamp
        else record_failure b' timestamp)
    else record_failure b timestamp

unfoldable pub record_success : CircuitBreaker → CircuitBreaker
record_success b = elim b.state [
  | half_open ↦
      let b' = record b { half_open_successes = bump32 b.half_open_successes } in
      if leb b.half_open_successes_needed b'.half_open_successes then reset b' else b'
  | closed ↦ record b { failures = 0; consecutive_rejections = 0 }
  | open_state ↦ b
]

unfoldable pub set_half_open_params : CircuitBreaker → ℕ → ℕ → CircuitBreaker
set_half_open_params b max_probes successes_needed = record b {
  half_open_enabled = true;
  half_open_max_probes = at_least_one max_probes;
  half_open_successes_needed = at_least_one successes_needed;
}

unfoldable pub set_cool_down_ns : CircuitBreaker → ℕ → CircuitBreaker
set_cool_down_ns b cool_down_ns = record b { cool_down_ns = cool_down_ns }

unfoldable pub set_max_consecutive_rejections : CircuitBreaker → ℕ → CircuitBreaker
set_max_consecutive_rejections b n = record b { max_consecutive_rejections = n }

unfoldable pub set_rate_limit : CircuitBreaker → ℕ → ℕ → CircuitBreaker
set_rate_limit b max_rate window_ns = record b {
  max_rate_per_window = max_rate;
  rate_window_ns = window_ns;
}

unfoldable pub set_max_loss_limit : CircuitBreaker → ℤ → CircuitBreaker
set_max_loss_limit b limit = record b { max_loss_limit = limit }

unfoldable pub check_loss_limit : CircuitBreaker → ℤ → ℕ → Bool × CircuitBreaker
check_loss_limit b loss timestamp =
    if ltb_ℤ (pos 0) b.max_loss_limit && leb_ℤ b.max_loss_limit loss
    then (false, trip b timestamp)
    else (true, b)

-- `allow` in the closed state: the rate window.
unfoldable pub allow_closed : CircuitBreaker → ℕ → Bool × CircuitBreaker
allow_closed b now =
    let b' = record b { window_count = bump32 b.window_count } in
    if ltb 0 b.max_rate_per_window && ltb 0 b.rate_window_ns && ltb 0 now
    then (if ltb now b.window_start_ns || leb b.rate_window_ns (now - b.window_start_ns)
        then (true, record b { window_start_ns = now; window_count = 1 })
        else if ltb b.max_rate_per_window b'.window_count
        then (false, trip b' now)
        else (true, b'))
    else (true, b)

-- ... in the half-open state: a probe, if one is left.
unfoldable pub allow_half_open : CircuitBreaker → Bool × CircuitBreaker
allow_half_open b = (
  ltb b.half_open_probes_issued b.half_open_max_probes,
  record b { half_open_probes_issued = bump32 b.half_open_probes_issued },
)

abbrev pub cooled : CircuitBreaker → ℕ → Bool
cooled b now =
    ltb 0 b.cool_down_ns
    && ltb 0 now
    && leb b.trip_timestamp_ns now
    && leb b.cool_down_ns (now - b.trip_timestamp_ns)

-- ... and in the open state, which the cool-down ends.
unfoldable pub allow_open : CircuitBreaker → ℕ → Bool × CircuitBreaker
allow_open b now =
    if cooled b now
    then (if b.half_open_enabled
        then allow_half_open
            (record b { state = half_open; half_open_probes_issued = 0; half_open_successes = 0 })
        else (true, reset b))
    else (false, b)

unfoldable pub allow : CircuitBreaker → ℕ → Bool × CircuitBreaker
allow b now = elim b.state [
  | closed ↦ allow_closed b now
  | open_state ↦ allow_open b now
  | half_open ↦ allow_half_open b
]
