-- ===== src/Files.antt =====
-- rdp-sidecar/src/fichiers.rs: the files of the clipboard of a remote desktop.
pub mod Names
pub mod Disk
pub mod Places
pub mod Requests
pub mod Reception
pub mod Opening
pub mod Receive
pub mod Window
pub mod Filled
pub mod Alive
pub mod Started
pub mod Nearer
pub mod Live
pub mod Under
pub mod Offer
pub mod Served
mod Tests
