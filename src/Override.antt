-- ===== src/Override.antt =====
-- The overrides of a configuration: YAML merging, scripts, and the requests that apply them.
pub mod Merge
pub mod Script
pub mod Processor
pub mod Request
pub mod Download
mod Tests
