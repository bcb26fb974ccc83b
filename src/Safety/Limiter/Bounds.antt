-- ===== src/Safety/Limiter/Bounds.antt =====
-- Under any sequence of calls the limiter of luv_safety.hpp holds what was acquired and not released.
use fort.Base.{ℕ, ◌+◌, ◌≤◌, ◌≡◌, refl, List, [], ◌∷◌, arith, ◌==◌, if◌then◌else◌}
use fort.Safety.Limiter.{OrderRateLimiter, try_acquire, release}

pub data Call : Type 0 where
  acquiring releasing : Call

-- How many calls acquired, how many releases met a pending order, and the limiter.
unfoldable pub run : OrderRateLimiter → List Call → ℕ × ℕ × OrderRateLimiter
run r [] = (0, 0, r)
run r (acquiring ∷ cs) =
    let (ok, r') = try_acquire r in let (a, b, r'') = run r' cs in (if ok then a + 1 else a, b, r'')
run r (releasing ∷ cs) =
    let (a, b, r') = run (release r) cs in (a, if r.pending == 0 then b else b + 1, r')

-- From a limiter within its maximum any sequence of calls leaves it within its maximum, and pending are
-- those of before and the acquired, less the released.
pub run-bounds :
    (r : OrderRateLimiter) (cs : List Call)
    → r.pending ≤ r.max_pending
    → let (acquired, released, r') = run r cs in
      (r'.pending ≤ r'.max_pending)
      × (r'.max_pending ≡ r.max_pending)
      × (r'.pending + released ≡ r.pending + acquired)
unfolding run try_acquire release
run-bounds r [] h = (h, refl, refl)
run-bounds r (acquiring ∷ cs) h = ground (arith, run-bounds (try_acquire r).1 cs)
run-bounds r (releasing ∷ cs) h = ground (arith, run-bounds (release r) cs)
