-- ===== src/P2p.antt =====
-- p2p/: the messages between nodes, and what a node answers.
pub mod Messages
pub mod Node
pub mod Service
pub mod Loop
pub mod Handle
pub mod Peers
mod Examples
