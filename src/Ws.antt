-- ===== src/Ws.antt =====
-- shaperail-runtime/src/ws: the WebSocket channels' rooms and sessions.
pub mod Rooms
pub mod Session
