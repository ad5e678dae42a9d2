-- ===== src/UdpTunnel/Handshake.antt =====
-- The handshake of src/servers/udp_tunnel.rs, and the making of a tunnel. What the network does is an
-- argument: an error of `std::io` is a number, delays are seconds.
pub mod Retries
use pocket_relay_client_shar.Prelude.{
  ℕ, zero, suc, ◌+◌, ◌*◌, Option, none, some, List, [], ◌∷◌, ◌++◌, ltb, if◌then◌else◌,
}
use pocket_relay_client_shar.Reconnect.{Result, ok, err}
use pocket_relay_client_shar.UdpTunnel.Message.{
  TunnelMessage, initiate, initiated, forward, keep_alive, Protocol,
}

pub data UdpTunnelError : Type 0 where
  host_incompatible server_incompatible : UdpTunnelError
  bind connect : ℕ → UdpTunnelError
  handshake_timeout : UdpTunnelError
  generic_io : ℕ → UdpTunnelError
  malformed_packet unexpected_packet : UdpTunnelError
  allocate_socket_pool : ℕ → UdpTunnelError

-- What the network does in one handshake: nothing within `HANDSHAKE_TIMEOUT`, an error of `send` or
-- of `recv`, or a datagram.
pub data Exchange : Type 0 where
  timed_out : Exchange
  send_failed recv_failed : ℕ → Exchange
  received : List ℕ → Exchange

abbrev pub max_handshake_attempts : ℕ
max_handshake_attempts = 5

-- `u32::MAX`, the tunnel number of a handshake.
abbrev pub u32_max : ℕ
u32_max = 0xffff_ffff

module _ (protocol : Protocol) where
  open protocol use {serialize_message, deserialize_message}

  -- The datagram that opens a handshake.
  unfoldable pub initiate_message : List ℕ → List ℕ
  initiate_message association = serialize_message u32_max (initiate association)

  unfoldable pub accept_reply : Option TunnelMessage → Result UdpTunnelError ℕ
  accept_reply none = err malformed_packet
  accept_reply (some (initiated tunnel_id)) = ok tunnel_id
  accept_reply (some _) = err unexpected_packet

  -- `handshake_tunnel` under its `timeout`.
  unfoldable pub handshake_tunnel : Exchange → Result UdpTunnelError ℕ
  unfolding accept_reply
  handshake_tunnel timed_out = err handshake_timeout
  handshake_tunnel (send_failed e) = err (generic_io e)
  handshake_tunnel (recv_failed e) = err (generic_io e)
  handshake_tunnel (received buffer) = accept_reply (deserialize_message buffer)

  -- The `loop` of `attempt_tunnel_handshake`; attempt number `retry_count` meets the exchange of that
  -- number. The delays that were waited are kept. `none`: the fuel ran out.
  unfoldable pub retry_loop :
      (ℕ → Exchange) → ℕ → ℕ → ℕ → List ℕ → Option (Result UdpTunnelError ℕ × List ℕ)
  unfolding handshake_tunnel
  retry_loop network zero retry_count retry_delay delays = none
  retry_loop network (suc fuel) retry_count retry_delay delays =
      let count = retry_count + 1 in
      let waited = delays ++ (retry_delay ∷ []) in
      let rest = retry_loop network fuel count (retry_delay * 2) waited in
      elim (handshake_tunnel (network retry_count)) [
        | ok value ↦ some (ok value, delays)
        | err last_err ↦
            if ltb max_handshake_attempts count then some (err last_err, waited) else rest
      ]

  -- `network` is what the network does with a datagram, by the number of the attempt.
  unfoldable pub attempt_tunnel_handshake :
      List ℕ → (List ℕ → ℕ → Exchange) → Option (Result UdpTunnelError ℕ × List ℕ)
  unfolding retry_loop initiate_message
  attempt_tunnel_handshake association network =
      retry_loop (network (initiate_message association)) 7 0 5 []
