-- ===== src/DelayTest.antt =====
-- Delay tests of proxy nodes (native/hub/src/molecules/delay_testing/tester.rs).
pub mod Node
pub mod Sessions
pub mod Batch
mod Tests
