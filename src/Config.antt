-- ===== src/Config.antt =====
-- crates/avash/src/lib.rs: reading, validating, resolving and editing `~/.ssh/config`.
pub mod Host
pub mod Glob
pub mod Blocks
pub mod Resolve
pub mod Hops
pub mod Validate
pub mod Render
pub mod Edit
mod Tests
