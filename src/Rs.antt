-- ===== src/Rs.antt =====
-- rs/mod.rs: the store of shared file blocks under ~/.rxiu/rs. The operations take the disk and
-- return it. Disk faults other than a missing file (permissions, a full disk) do not occur here.
pub mod Types
pub mod Metadata
pub mod Blocks
pub mod Transfer
pub mod History
mod Examples
