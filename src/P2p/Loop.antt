-- ===== src/P2p/Loop.antt =====
-- p2p/service.rs: the event loop of `P2PService::start`. A turn of the loop handles one of the events that its
-- `select!` waits for.
pub mod State
pub mod Command
pub mod Event
pub mod Timer
pub mod Exchange
pub mod Run
pub mod Samples
mod Examples
