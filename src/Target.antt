-- ===== src/Target.antt =====
-- cmd/target: the machine that is driven.
pub mod Udp
pub mod Dispatch
pub mod Conn
pub mod Clip
pub mod Accept
pub mod Token
pub mod Main
