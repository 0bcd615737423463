-- ===== src/Storage.antt =====
-- storage/: the zones of a node, each a directory of files with a metadata file.
pub mod Local
pub mod Zones
mod Examples
