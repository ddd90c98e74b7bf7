-- ===== src/Server.antt =====
-- ember/server: the main server.
pub mod Events
pub mod Schedules
