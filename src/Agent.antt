-- ===== src/Agent.antt =====
-- agent.
pub mod PingPong
pub mod Reader
pub mod Life
