-- ===== src/Daemon/Invariant.antt =====
-- What holds of the daemon between two critical sections, and that all of them keep it.
pub mod Defs
pub mod Sender
pub mod Listener
pub mod Control
