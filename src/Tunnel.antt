-- ===== src/Tunnel.antt =====
-- src/servers/tunnel.rs: the tunnel over an upgraded HTTP connection.
pub mod Codec
pub mod Relay
pub mod Service
pub mod Socket
pub mod Pool
pub mod Session
pub mod System
