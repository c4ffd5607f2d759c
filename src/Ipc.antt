-- ===== src/Ipc.antt =====
-- native/hub/src/atoms/ipc_client/client.rs: HTTP over the core's pipe or socket.
mod Tests
pub mod Utf8
pub mod Stream
pub mod Http
pub mod Pool
