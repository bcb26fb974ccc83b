-- ===== src/Safety/Limiter/Tests.antt =====
-- A limiter of luv_safety.hpp with one order pending.
use fort.Base.{refl, ◌≡◌, List, [], ◌∷◌}
use fort.Safety.Limiter.{OrderRateLimiter, try_acquire, release}
use fort.Safety.Limiter.Bounds.{Call, acquiring, releasing, run}

abbrev limiter : OrderRateLimiter
limiter = record { max_pending = 2; pending = 1 }

abbrev calls : List Call
calls = acquiring ∷ acquiring ∷ releasing ∷ releasing ∷ releasing ∷ []

-- One order is acquired, the second refused, and the last release finds none pending.
none_pending : run limiter calls ≡ (1, 2, record { max_pending = 2; pending = 0 })
unfolding run try_acquire release
none_pending = refl
