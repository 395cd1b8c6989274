-- ===== src/Controller.antt =====
-- cmd/controller: the machine whose keyboard and mouse are shared.
pub mod EdgeMath
pub mod EdgeLoop
pub mod Legacy
pub mod Trust
pub mod Handshake
pub mod Clip
pub mod Main
