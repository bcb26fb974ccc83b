-- ===== src/WebSocket.antt =====
-- The input of the WebSocket listener: luv_websocket_parse.hpp.
pub mod Utf8
pub mod Frame
pub mod Tests
