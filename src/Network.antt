-- ===== src/Network.antt =====
-- What the Raft network lets in (src/raft/network).
pub mod Authorization
