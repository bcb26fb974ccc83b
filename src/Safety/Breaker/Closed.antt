-- ===== src/Safety/Breaker/Closed.antt =====
-- The closed state of CircuitBreaker in luv_safety.hpp, and the calls that keep it sound.
use fort.Base.{ℕ, ◌^◌, ◌≤◌, ◌<◌, ◌≡◌, ◌↔◌, refl, true, false, List, [], ◌∷◌, arith}
use fort.Base.Int.{ℤ}
use fort.Safety.Breaker.{
  circuit_breaker, CircuitBreaker, is_tripped, closed, half_open, trip, reset, set_half_open_params,
  set_cool_down_ns, set_max_consecutive_rejections, set_rate_limit, set_max_loss_limit,
  count_failure, record_failure, record_rejection, record_success, check_loss_limit, allow,
  allow_closed, allow_open, allow_half_open,
}

-- While the breaker is closed, its failures are below the maximum, which they never pass; the flag follows the
-- state; and the breaker is half open only with that mode switched on, whose parameters are at least 1.
pub record IsBreaker (b : CircuitBreaker) : Type 0 where
  pub below : b.state ≡ closed → b.failures < b.max_failures
  pub at_most : b.failures ≤ b.max_failures
  pub some_failure : 0 < b.max_failures
  pub word : b.max_failures < 2 ^ 32
  pub flag : (b.tripped ≡ false) ↔ (b.state ≡ closed)
  pub seen : is_tripped b ≡ true → b.tripped ≡ true
  pub probes : (0 < b.half_open_max_probes) × (0 < b.half_open_successes_needed)
  pub half : (b.state ≡ half_open) → b.half_open_enabled ≡ true

pub data Call : Type 0 where
  failure rejection : ℕ → Call
  success : Call
  loss : ℤ → ℕ → Call
  asking : ℕ → Call
  tripping : ℕ → Call
  resetting : Call
  half_open_params : ℕ → ℕ → Call
  cool_down : ℕ → Call
  max_rejections : ℕ → Call
  rate_limit : ℕ → ℕ → Call
  loss_limit : ℤ → Call

pub step : CircuitBreaker → Call → CircuitBreaker
step b (failure t) = record_failure b t
step b (rejection t) = record_rejection b t
step b success = record_success b
step b (loss l t) = (check_loss_limit b l t).1
step b (asking t) = (allow b t).1
step b (tripping t) = trip b t
step b resetting = reset b
step b (half_open_params probes successes) = set_half_open_params b probes successes
step b (cool_down t) = set_cool_down_ns b t
step b (max_rejections n) = set_max_consecutive_rejections b n
step b (rate_limit rate window) = set_rate_limit b rate window
step b (loss_limit l) = set_max_loss_limit b l

module _ (b : CircuitBreaker) (v : IsBreaker b) where
  record_failure-IsBreaker : (t : ℕ) → IsBreaker (record_failure b t)
  unfolding record_failure count_failure trip
  record_failure-IsBreaker t = record {
    below = ground (arith, v.below, v.at_most, v.some_failure, v.word, v.flag);
    at_most = ground (arith, v.below, v.at_most, v.some_failure, v.word);
    some_failure = ground (arith, v.some_failure);
    word = ground (arith, v.word);
    flag = ground (arith, v.flag);
    seen = λ h. ground (arith, h, v.flag);
    probes = ground (arith, v.probes);
    half = λ h. ground (arith, h, v.half);
  }

  record_success-IsBreaker : IsBreaker (record_success b)
  unfolding record_success reset
  record_success-IsBreaker = record {
    below = ground (arith, v.below, v.at_most, v.some_failure, v.word, v.flag);
    at_most = ground (arith, v.below, v.at_most, v.some_failure, v.word);
    some_failure = ground (arith, v.some_failure);
    word = ground (arith, v.word);
    flag = ground (arith, v.flag);
    seen = λ h. ground (arith, h, v.flag);
    probes = ground (arith, v.probes);
    half = λ h. ground (arith, h, v.half);
  }

  check_loss_limit-IsBreaker : (l : ℤ) (t : ℕ) → IsBreaker (check_loss_limit b l t).1
  unfolding check_loss_limit trip
  check_loss_limit-IsBreaker l t = record {
    below = ground (arith, v.below, v.at_most, v.some_failure, v.word, v.flag);
    at_most = ground (arith, v.below, v.at_most, v.some_failure, v.word);
    some_failure = ground (arith, v.some_failure);
    word = ground (arith, v.word);
    flag = ground (arith, v.flag);
    seen = λ h. ground (arith, h, v.flag);
    probes = ground (arith, v.probes);
    half = λ h. ground (arith, h, v.half);
  }

  allow-IsBreaker : (now : ℕ) → IsBreaker (allow b now).1
  unfolding allow allow_closed allow_open allow_half_open trip reset
  allow-IsBreaker now = record {
    below = ground (arith, v.below, v.at_most, v.some_failure, v.word, v.flag);
    at_most = ground (arith, v.below, v.at_most, v.some_failure, v.word);
    some_failure = ground (arith, v.some_failure);
    word = ground (arith, v.word);
    flag = ground (arith, v.flag);
    seen = λ h. ground (arith, h, v.flag);
    probes = ground (arith, v.probes);
    half = λ h. ground (arith, h, v.half);
  }

  trip-IsBreaker : (t : ℕ) → IsBreaker (trip b t)
  unfolding trip
  trip-IsBreaker t = record {
    below = ground (arith, v.below, v.at_most, v.some_failure);
    at_most = ground (arith, v.at_most);
    some_failure = ground (arith, v.some_failure);
    word = ground (arith, v.word);
    flag = ground (arith, v.flag);
    seen = λ h. ground (arith, h, v.flag);
    probes = ground (arith, v.probes);
    half = λ h. ground (arith, h, v.half);
  }

  reset-IsBreaker : IsBreaker (reset b)
  unfolding reset
  reset-IsBreaker = record {
    below = ground (arith, v.below, v.at_most, v.some_failure);
    at_most = ground (arith, v.at_most);
    some_failure = ground (arith, v.some_failure);
    word = ground (arith, v.word);
    flag = ground (arith, v.flag);
    seen = λ h. ground (arith, h, v.flag);
    probes = ground (arith, v.probes);
    half = λ h. ground (arith, h, v.half);
  }

  set_half_open_params-IsBreaker :
      (probes successes : ℕ) → IsBreaker (set_half_open_params b probes successes)
  unfolding set_half_open_params
  set_half_open_params-IsBreaker probes successes = record {
    below = ground (arith, v.below, v.at_most, v.some_failure);
    at_most = ground (arith, v.at_most);
    some_failure = ground (arith, v.some_failure);
    word = ground (arith, v.word);
    flag = ground (arith, v.flag);
    seen = λ h. ground (arith, h, v.flag);
    probes = ground (arith, v.probes);
    half = λ h. ground (arith, h, v.half);
  }

  set_cool_down_ns-IsBreaker : (t : ℕ) → IsBreaker (set_cool_down_ns b t)
  unfolding set_cool_down_ns
  set_cool_down_ns-IsBreaker t = record {
    below = ground (arith, v.below, v.at_most, v.some_failure);
    at_most = ground (arith, v.at_most);
    some_failure = ground (arith, v.some_failure);
    word = ground (arith, v.word);
    flag = ground (arith, v.flag);
    seen = λ h. ground (arith, h, v.flag);
    probes = ground (arith, v.probes);
    half = λ h. ground (arith, h, v.half);
  }

  set_max_consecutive_rejections-IsBreaker :
      (n : ℕ) → IsBreaker (set_max_consecutive_rejections b n)
  unfolding set_max_consecutive_rejections
  set_max_consecutive_rejections-IsBreaker n = record {
    below = ground (arith, v.below, v.at_most, v.some_failure);
    at_most = ground (arith, v.at_most);
    some_failure = ground (arith, v.some_failure);
    word = ground (arith, v.word);
    flag = ground (arith, v.flag);
    seen = λ h. ground (arith, h, v.flag);
    probes = ground (arith, v.probes);
    half = λ h. ground (arith, h, v.half);
  }

  set_rate_limit-IsBreaker : (rate window : ℕ) → IsBreaker (set_rate_limit b rate window)
  unfolding set_rate_limit
  set_rate_limit-IsBreaker rate window = record {
    below = ground (arith, v.below, v.at_most, v.some_failure);
    at_most = ground (arith, v.at_most);
    some_failure = ground (arith, v.some_failure);
    word = ground (arith, v.word);
    flag = ground (arith, v.flag);
    seen = λ h. ground (arith, h, v.flag);
    probes = ground (arith, v.probes);
    half = λ h. ground (arith, h, v.half);
  }

  set_max_loss_limit-IsBreaker : (l : ℤ) → IsBreaker (set_max_loss_limit b l)
  unfolding set_max_loss_limit
  set_max_loss_limit-IsBreaker l = record {
    below = ground (arith, v.below, v.at_most, v.some_failure);
    at_most = ground (arith, v.at_most);
    some_failure = ground (arith, v.some_failure);
    word = ground (arith, v.word);
    flag = ground (arith, v.flag);
    seen = λ h. ground (arith, h, v.flag);
    probes = ground (arith, v.probes);
    half = λ h. ground (arith, h, v.half);
  }

record_rejection-IsBreaker :
    (b : CircuitBreaker) (t : ℕ) → IsBreaker b → IsBreaker (record_rejection b t)
unfolding record_rejection record_failure count_failure trip
record_rejection-IsBreaker b t v = record {
  below = ground (arith, v.below, v.at_most, v.some_failure, v.word, v.flag);
  at_most = ground (arith, v.below, v.at_most, v.some_failure, v.word);
  some_failure = ground (arith, v.some_failure);
  word = ground (arith, v.word);
  flag = ground (arith, v.flag);
  seen = λ h. ground (arith, h, v.flag);
  probes = ground (arith, v.probes);
  half = λ h. ground (arith, h, v.half);
}

pub step-IsBreaker : (b : CircuitBreaker) (c : Call) → IsBreaker b → IsBreaker (step b c)
unfolding step
step-IsBreaker b (failure t) v = record_failure-IsBreaker b v t
step-IsBreaker b (rejection t) v = record_rejection-IsBreaker b t v
step-IsBreaker b success v = record_success-IsBreaker b v
step-IsBreaker b (loss l t) v = check_loss_limit-IsBreaker b v l t
step-IsBreaker b (asking t) v = allow-IsBreaker b v t
step-IsBreaker b (tripping t) v = trip-IsBreaker b v t
step-IsBreaker b resetting v = reset-IsBreaker b v
step-IsBreaker b (half_open_params probes successes) v =
    set_half_open_params-IsBreaker b v probes successes
step-IsBreaker b (cool_down t) v = set_cool_down_ns-IsBreaker b v t
step-IsBreaker b (max_rejections n) v = set_max_consecutive_rejections-IsBreaker b v n
step-IsBreaker b (rate_limit rate window) v = set_rate_limit-IsBreaker b v rate window
step-IsBreaker b (loss_limit l) v = set_max_loss_limit-IsBreaker b v l

pub run : CircuitBreaker → List Call → CircuitBreaker
run b [] = b
run b (c ∷ cs) = run (step b c) cs

run-IsBreaker : (b : CircuitBreaker) (cs : List Call) → IsBreaker b → IsBreaker (run b cs)
unfolding run
run-IsBreaker b [] v = v
run-IsBreaker b (c ∷ cs) v = run-IsBreaker (step b c) cs (step-IsBreaker b c v)

-- A breaker that was constructed with a 32-bit maximum, after any calls, the setters, `trip` and `reset`
-- included: while it is closed, the failures that count are below the maximum, which is at least 1; they are
-- never above it; it is half open only with the half-open mode switched on, whose parameters are at least 1;
-- and the flag `_tripped`, which nothing reads, is off exactly while the breaker is closed, so that it is on
-- where `tripped()` is true.
pub run-circuit_breaker :
    (max_failures cool_down_ns : ℕ) (cs : List Call)
    → max_failures < 2 ^ 32
    → IsBreaker (run (circuit_breaker max_failures cool_down_ns) cs)
run-circuit_breaker max_failures cool_down_ns cs h =
    run-IsBreaker (circuit_breaker max_failures cool_down_ns) cs (record {
      below = λ h. ground arith;
      at_most = omega arith;
      some_failure = ground arith;
      word = ground (arith, h);
      flag = (λ h. refl, λ h. refl);
      seen = λ h. cc;
      probes = (omega arith, omega arith);
      half = λ h. cc;
    })
