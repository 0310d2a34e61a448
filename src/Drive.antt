-- ===== src/Drive.antt =====
-- rdp-sidecar/src/disque.rs: the folder that is shared with a remote desktop.
pub mod Space
pub mod Host
pub mod Resolve
pub mod Request
pub mod Facts
pub mod Open
pub mod Data
pub mod Directory
pub mod Query
pub mod Modify
pub mod Handle
pub mod Numbers
pub mod Below
pub mod Confined
pub mod Safe
pub mod Changes
pub mod Whole
mod Tests
