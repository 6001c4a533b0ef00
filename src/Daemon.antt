-- ===== src/Daemon.antt =====
-- internal/senderdaemon: one daemon that runs a sender and a listener.
pub mod Types
pub mod Normalize
pub mod State
pub mod Sender
pub mod Listener
pub mod Control
pub mod Snapshot
pub mod Invariant
pub mod Step
pub mod History
