-- ===== src/Tests.antt =====
-- Runs of the models at concrete data, with the theorems applied to them.
pub mod Data
pub mod Paths
pub mod Wire
pub mod Transfer
pub mod Keys
pub mod Adverts
pub mod Daemons
pub mod Exchanges
pub mod Lifecycle
pub mod Requests
pub mod Screens
pub mod Terminals
pub mod Commands
