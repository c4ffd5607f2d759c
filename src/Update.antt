-- ===== src/Update.antt =====
-- The update checks of the application and of the core.
mod Tests
pub mod Version
pub mod Asset
pub mod Check
pub mod Core
