-- ===== src/UdpTunnel.antt =====
-- src/servers/udp_tunnel.rs: the tunnel over UDP.
pub mod Message
pub mod Socket
pub mod Handshake
pub mod Service
pub mod Session
pub mod System
pub mod Relay
