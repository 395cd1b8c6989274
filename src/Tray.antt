-- ===== src/Tray.antt =====
-- cmd/tray: the profiles that start a target or a controller, and the processes that run.
pub mod Profiles
pub mod Token
pub mod Store
pub mod Messages
pub mod Processes
pub mod Menu
pub mod Editor
pub mod Icon
pub mod Binaries
