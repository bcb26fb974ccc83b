-- ===== src/Execution.antt =====
-- luv_execution.hpp: the check before an order, the reservation of its quantity and
-- exposure, and the stop orders.
pub mod Risk
pub mod Reserve
pub mod Limits
pub mod Roundtrip
pub mod Stops
pub mod Tests
