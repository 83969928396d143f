-- ===== src/Agent.antt =====
-- crates/node-agent: the process on each relay node.
pub mod Select
pub mod Retry
pub mod Stats
pub mod Sniff
pub mod ConnLimit
pub mod TokenBucket
pub mod Frame
pub mod Manager
pub mod Store
pub mod Creds
pub mod Command
pub mod System
pub mod Session
pub mod Dns
pub mod Udp
pub mod Relay
pub mod Tunnel
pub mod Sample
