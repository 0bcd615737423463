-- ===== src/Renew.antt =====
-- renew/ and daemon/renew.rs, with the chunk server of p2p/service.rs: nodes that update themselves
-- with a binary that a peer sends.
pub mod Version
pub mod Chunk
pub mod Update
mod Examples
