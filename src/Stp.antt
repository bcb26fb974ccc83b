-- ===== src/Stp.antt =====
-- luv_stp.hpp: self-trade prevention, and the protection of market makers.
pub mod SelfTrade
pub mod Protection
pub mod Tests
