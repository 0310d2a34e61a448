-- ===== src/Rdp/Egfx.antt =====
-- rdp-sidecar/src/egfx.rs: the graphics channel of a remote desktop session.
pub mod Pdu
pub mod State
pub mod Commands
pub mod Handle
pub mod Redrawn
pub mod Sane
pub mod Safe
pub mod Kept
pub mod Sound
mod Tests
