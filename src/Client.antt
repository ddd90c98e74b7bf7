-- ===== src/Client.antt =====
-- ember/client: the client's view of the main server. Each child models one file of the crate.
pub mod Wire
pub mod Transcript
pub mod State
