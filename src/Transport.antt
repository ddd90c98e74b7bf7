-- ===== src/Transport.antt =====
-- ember/transport: the transport that server and node share.
pub mod Gate
