-- ===== src/Task.antt =====
-- contexts/task.
pub mod Manager
pub mod Handlers
