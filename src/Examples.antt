-- ===== src/Examples.antt =====
-- The arguments of the model at concrete values, and the theorems at concrete inputs.
pub mod Rational
pub mod Values
pub mod Wire
pub mod Screens
pub mod Hooks
pub mod Service
pub mod Loop
pub mod Devices
pub mod Hosts
pub mod Links
pub mod Sync
pub mod Profiles
pub mod Listeners
pub mod Menu
pub mod Inputs
pub mod Tokens
pub mod Starts
pub mod Edge
