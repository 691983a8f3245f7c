-- ===== src/Infra.antt =====
-- infrastructure: what the threads share.
pub mod MsgTable
pub mod Session
pub mod Timer
pub mod Ctl
pub mod Console
pub mod Thread
pub mod RotatingSink
pub mod Log
