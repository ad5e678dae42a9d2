-- ===== src/Tests.antt =====
-- Runs of the models on concrete inputs.
mod Codecs
mod Tunnels
mod Udp
mod UdpSessions
mod Services
mod Sessions
mod Systems
mod UdpSystems
mod Lifetimes
mod Requests
mod Telemetry
mod KnownData
mod Lookups
