-- ===== src/UdpTunnel/Message.antt =====
-- The messages of the crate `pocket_relay_udp_tunnel`, as src/servers/udp_tunnel.rs uses them, and
-- its two functions on datagrams as an interface.
use pocket_relay_client_shar.Prelude.{ℕ, List, Option}

-- An association token is a list of bytes.
pub data TunnelMessage : Type 0 where
  initiate : List ℕ → TunnelMessage
  initiated : ℕ → TunnelMessage
  forward : ℕ → List ℕ → TunnelMessage
  keep_alive : TunnelMessage

-- `serialize_message` of a tunnel id and a message, and `deserialize_message` with `none` for an
-- error; of the packet the code reads the message alone.
pub record Protocol : Type 0 where
  pub serialize_message : ℕ → TunnelMessage → List ℕ
  pub deserialize_message : List ℕ → Option TunnelMessage
