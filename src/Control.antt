-- ===== src/Control.antt =====
-- native/hub/src/molecules/clash_process: the core as a process of the hub, and the control of the service
-- that runs it.
mod Tests
pub mod Process
pub mod Manager
pub mod Install
