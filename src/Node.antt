-- ===== src/Node.antt =====
-- ember/node: the daemon on a computer.
pub mod Jobs
