-- ===== src/Lob.antt =====
-- luv_lob.hpp: the limit order book.
pub mod RefMap
pub mod Level
pub mod Ladder
pub mod Engine
pub mod Book
