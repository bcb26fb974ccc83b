-- ===== src/Itch.antt =====
-- The feed of ITCH 5.0 messages: luv_decode_itch.hpp, and the messages that luv_feed_sim.hpp makes.
pub mod Bytes
pub mod Symbols
pub mod Decode
pub mod Sim
pub mod Tests
