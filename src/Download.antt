-- ===== src/Download.antt =====
-- tui/app.rs: the download of files from peers.
pub mod Chunked
mod Examples
