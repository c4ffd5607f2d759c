-- ===== src/Config.antt =====
-- The configuration that the Clash core is started with (native/hub/src/molecules/clash_config).
pub mod ChainProxy
pub mod Params
pub mod Dns
pub mod Injector
pub mod Generator
mod Tests
