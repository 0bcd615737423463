-- ===== src/Wire.antt =====
-- daemon/protocol.rs, daemon/block_server.rs and tui/block_client.rs: bytes on a connection.
pub mod Frame
pub mod Block
mod Examples
