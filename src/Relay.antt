-- ===== src/Relay.antt =====
-- The relay: relay-server/src/main.rs. A gateway behind a firewall registers a host name over a
-- control connection; clients connect to the relay, which reads the host name from their TLS hello
-- and passes the connection on through the tunnel.
pub mod Hello
pub mod Fragments
pub mod Register
pub mod Lines
pub mod Tunnels
pub mod Owners
pub mod Route
pub mod Passage
pub mod Idle
pub mod Limits
pub mod Contract
pub mod Refinement
pub mod Overlap
pub mod Alive
mod Examples
mod Trials
