-- ===== src/Transport.antt =====
-- What carries packets to the engine: the framing of MoldUDP64, and the descriptor rings.
pub mod Mold
pub mod Ring
pub mod Spsc
