-- ===== src/Safety/Breaker/Open.antt =====
-- How CircuitBreaker of luv_safety.hpp opens, and what it lets through until it closes again.
use fort.Base.{
  ℕ, zero, suc, ◌+◌, ◌-◌, ◌^◌, min, ◌≤◌, ◌<◌, ◌≡◌, ◌⊎◌, inl, inr, true, false, arith, ltb,
  if◌then◌else◌,
}
use fort.Safety.Breaker.{
  CircuitBreaker, closed, open_state, half_open, trip, reset, count_failure, record_failure, allow,
  allow_open, allow_half_open,
}

-- `n` failures in a row, at one time.
pub fail_times : ℕ → CircuitBreaker → ℕ → CircuitBreaker
fail_times zero b t = b
fail_times (suc n) b t = fail_times n (record_failure b t) t

module _ (t : ℕ) where
  fail_times-open :
      (n : ℕ) (b : CircuitBreaker) → b.state ≡ open_state → (fail_times n b t).state ≡ open_state
  unfolding fail_times record_failure count_failure trip
  fail_times-open zero b o = o
  fail_times-open (suc n) b o = fail_times-open n (record_failure b t) (ground (arith, o))

  record_failure-closed :
      (b : CircuitBreaker)
      → b.state ≡ closed
      → b.failures < b.max_failures
      → b.max_failures < 2 ^ 32
      → let b' = record_failure b t in
        (b'.max_failures ≡ b.max_failures)
        × (b'.failures ≡ b.failures + 1)
        × ((b.failures + 1 < b.max_failures × b'.state ≡ closed)
            ⊎ (b.max_failures ≤ b.failures + 1 × b'.state ≡ open_state))
  unfolding record_failure count_failure trip
  record_failure-closed b c h w = ground (arith, c, h, w)

  -- A closed breaker with a 32-bit maximum is still closed after `n` failures in a row while with them
  -- the failures are below the maximum, and is open otherwise.
  pub fail_times-closed :
      (n : ℕ) (b : CircuitBreaker)
      → b.state ≡ closed
      → b.failures < b.max_failures
      → b.max_failures < 2 ^ 32
      → let b' = fail_times n b t in
        ((b.failures + n < b.max_failures) × (b'.state ≡ closed))
        ⊎ ((b.max_failures ≤ b.failures + n) × (b'.state ≡ open_state))
  unfolding fail_times
  fail_times-closed zero b c h w = inl (omega arith, c)
  fail_times-closed (suc n) b c h w =
      let (same, one, cases) = record_failure-closed b c h w in
      elim cases [
        | inl (small, still) ↦ ground (
          arith,
          same,
          one,
          small,
          fail_times-closed n (record_failure b t) still (omega (arith, same, one, small))
              (omega (arith, same, w)),
        )
        | inr (reached, tripped) ↦
            inr (omega (arith, reached), fail_times-open n (record_failure b t) tripped)
      ]

-- An open breaker lets a call through exactly when a cool-down is set and has passed since the trip,
-- and is not open any more then; before, it stays as it is.
pub allow-open :
    (b : CircuitBreaker) (now : ℕ)
    → b.state ≡ open_state
    → 0 < b.half_open_max_probes
    → (((0 < b.cool_down_ns)
          × (0 < now)
          × (b.trip_timestamp_ns + b.cool_down_ns ≤ now)
          × ((allow b now).0 ≡ true)
          × (((allow b now).1.state ≡ half_open) ⊎ ((allow b now).1.state ≡ closed)))
        ⊎ (((b.cool_down_ns ≡ 0) ⊎ (now ≡ 0) ⊎ (now < b.trip_timestamp_ns + b.cool_down_ns))
            × (allow b now ≡ (false, b))))
unfolding allow allow_open allow_half_open reset
allow-open b now o probes = ground (arith, o, probes)

-- `n` calls of `allow` in a row: how many it let through.
pub ask_times : ℕ → CircuitBreaker → ℕ → ℕ × CircuitBreaker
ask_times zero b now = (0, b)
ask_times (suc n) b now =
    let (ok, b') = allow b now in
    let (k, b'') = ask_times n b' now in (if ok then suc k else k, b'')

allow-half_open :
    (b : CircuitBreaker) (now : ℕ)
    → b.state ≡ half_open
    → b.half_open_probes_issued + 1 < 2 ^ 32
    → let (ok, b') = allow b now in
      (ok ≡ ltb b.half_open_probes_issued b.half_open_max_probes)
      × (b'.state ≡ half_open)
      × (b'.half_open_max_probes ≡ b.half_open_max_probes)
      × (b'.half_open_probes_issued ≡ b.half_open_probes_issued + 1)
unfolding allow allow_half_open
allow-half_open b now o h = ground (arith, o, h)

-- A half-open breaker that records no outcome lets as many of `n` calls through as it has probes
-- left, and stays half open, as long as the counter of probes does not wrap.
pub ask_times-half_open :
    (n : ℕ) (b : CircuitBreaker) (now : ℕ)
    → b.state ≡ half_open
    → b.half_open_probes_issued + n < 2 ^ 32
    → let (k, b') = ask_times n b now in
      (k ≡ min n (b.half_open_max_probes - b.half_open_probes_issued)) × (b'.state ≡ half_open)
unfolding ask_times
ask_times-half_open zero b now o h = (omega arith, o)
ask_times-half_open (suc n) b now o h =
    let (ok, still, probes, issued) = allow-half_open b now o (omega arith) in
    let (k, half) = ask_times-half_open n (allow b now).1 now still (omega (arith, issued)) in
    (ground (arith, ok, k, probes, issued), half)
