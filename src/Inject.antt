-- ===== src/Inject.antt =====
-- internal/inject: what each event becomes on the machine that receives it.
pub mod Windows
pub mod Linux
pub mod Coverage
pub mod Feedback
