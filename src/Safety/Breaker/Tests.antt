-- ===== src/Safety/Breaker/Tests.antt =====
-- Breakers of luv_safety.hpp: one that three failures open, one that was tripped, one that probes.
use fort.Base.{◌-◌, ◌≡◌, refl, true, List, [], ◌∷◌, arith, min}
use fort.Base.Int.{pos}
use fort.Safety.Breaker.{CircuitBreaker, circuit_breaker, open_state, half_open}
use fort.Safety.Breaker.Closed.{
  IsBreaker, Call, failure, rejection, success, loss, asking, tripping, resetting, half_open_params,
  max_rejections, rate_limit, loss_limit, run, run-circuit_breaker,
}
use fort.Safety.Breaker.Open.{ask_times, ask_times-half_open}

abbrev calls : List Call
calls =
    half_open_params 2 1
    ∷ rate_limit 10 100
    ∷ max_rejections 4
    ∷ loss_limit (pos 50)
    ∷ asking 5
    ∷ failure 6
    ∷ success
    ∷ rejection 7
    ∷ failure 8
    ∷ failure 9
    ∷ asking 2000
    ∷ success
    ∷ loss (pos 60) 2001
    ∷ resetting
    ∷ tripping 2002
    ∷ []

run-circuit_breaker_example : IsBreaker (run (circuit_breaker 3 1000) calls)
run-circuit_breaker_example = run-circuit_breaker 3 1000 calls (omega arith)

abbrev halted : CircuitBreaker
halted = record (circuit_breaker 3 1000) {
  trip_timestamp_ns = 500;
  half_open_enabled = true;
  half_open_max_probes = 2;
  state = open_state;
  tripped = true;
}

abbrev probing : CircuitBreaker
probing = record halted { state = half_open }

ask_times-half_open_example :
    ((ask_times 5 probing 1600).0 ≡ min 5 (2 - 0))
    × ((ask_times 5 probing 1600).1.state ≡ half_open)
ask_times-half_open_example = ask_times-half_open 5 probing 1600 refl (omega arith)
