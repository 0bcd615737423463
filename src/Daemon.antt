-- ===== src/Daemon.antt =====
-- daemon/: the daemon that the terminal interface talks to.
pub mod Protocol
pub mod Server
pub mod Proxy
mod Examples
