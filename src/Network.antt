-- ===== src/Network.antt =====
-- native/hub/src/molecules/clash_network: requests to the core over a pool of connections, and the
-- streams that it sends over WebSocket connections.
mod Tests
pub mod Retry
pub mod Connect
pub mod Http
pub mod Request
pub mod Socket
pub mod Streams
