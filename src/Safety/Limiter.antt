-- ===== src/Safety/Limiter.antt =====
-- OrderRateLimiter of luv_safety.hpp. A loop of compare-and-swap ends with the swap or at the bound; each
-- call is one step.
pub mod Bounds
pub mod Tests
use fort.Base.{ℕ, ◌+◌, ◌-◌, Bool, true, false, ltb, ◌==◌, if◌then◌else◌}

pub record OrderRateLimiter : Type 0 where
  pub max_pending : ℕ
  pub pending : ℕ

unfoldable pub try_acquire : OrderRateLimiter → Bool × OrderRateLimiter
try_acquire r =
    if ltb r.pending r.max_pending then (true, record r { pending = r.pending + 1 }) else (false, r)

unfoldable pub release : OrderRateLimiter → OrderRateLimiter
release r = if r.pending == 0 then r else record r { pending = r.pending - 1 }
