-- ===== src/WebSocket.antt =====
-- components/web/src/web-socket.c: the WebSocket layer.
pub mod Frame
pub mod Reader
pub mod ReadFrame
pub mod Control
pub mod NextFrame
pub mod Clients
pub mod Connection
pub mod Sending
pub mod Sendframe
pub mod Timeout
pub mod Ping
pub mod Threads
pub mod Handshake
