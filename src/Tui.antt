-- ===== src/Tui.antt =====
-- cmd/tui/main.go: the terminal program. The components of `bubbles` are parameters.
pub mod Widgets
pub mod Types
pub mod Fields
pub mod Lists
pub mod Settings
pub mod Edits
pub mod Known
pub mod Sorted
pub mod Keys
pub mod Update
pub mod Shown
pub mod Reopen
pub mod Unsaved
pub mod Remote
pub mod Toggling
pub mod View
pub mod Run
