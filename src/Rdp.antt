-- ===== src/Rdp.antt =====
-- rdp-sidecar/src: the process that shows a remote desktop.
pub mod Dirty
pub mod Frame
pub mod Screen
pub mod Surface
pub mod Cache
pub mod Progressive
pub mod Egfx
pub mod Trust
mod Tests
