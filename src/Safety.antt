-- ===== src/Safety.antt =====
-- luv_safety.hpp: the sequence tracker of the feed, and the breaker and the limiter in front of the
-- gateway.
pub mod Sequence
pub mod Breaker
pub mod Limiter
