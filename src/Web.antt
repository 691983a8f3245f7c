-- ===== src/Web.antt =====
-- webserver.
pub mod ReportFrame
pub mod Stats
pub mod Kafka
pub mod Http
pub mod Main
