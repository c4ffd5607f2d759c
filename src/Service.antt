-- ===== src/Service.antt =====
-- The background service (native/stelliberty_service): the process manager, the commands of the
-- IPC protocol, and the heartbeat monitor.
pub mod Manager
pub mod Protocol
pub mod Handler
pub mod Monitor
pub mod Wire
pub mod Logs
mod Tests
