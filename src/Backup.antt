-- ===== src/Backup.antt =====
-- native/hub/src/molecules/system_operations/backup.rs: backups of the user's data, and their return.
mod Tests
pub mod Disk
pub mod Content
pub mod Create
pub mod Restore
