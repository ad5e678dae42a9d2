-- ===== src/UdpTunnel/Service.antt =====
-- `create_tunnel` and `start_udp_tunnel_server` of src/servers/udp_tunnel.rs.
pub mod Start
pub mod Sessions
use pocket_relay_client_shar.Prelude.{ℕ, Option, none, some, List}
use pocket_relay_client_shar.Context.{ClientContext}
use pocket_relay_client_shar.Reconnect.{◌>>=◌, Result, ok, err, Service, done, reconnect}
use pocket_relay_client_shar.UdpTunnel.Message.{Protocol}
use pocket_relay_client_shar.UdpTunnel.Handshake.{
  UdpTunnelError, bind, connect, handshake_timeout, allocate_socket_pool, Exchange,
  attempt_tunnel_handshake,
}

-- What an attempt to create a tunnel meets: the errors of `bind`, of `connect` to a host and a port,
-- and of `Socket::allocate_pool`, if any, and what the exchanges of its handshake do with a datagram.
pub record Network : Type 0 where
  pub bind_error : Option ℕ
  pub connect_error : List ℕ → ℕ → Option ℕ
  pub exchanges : List ℕ → ℕ → Exchange
  pub pool_error : Option ℕ

abbrev pub map_err : Option ℕ → (ℕ → UdpTunnelError) → Result UdpTunnelError (Unit {0})
map_err none f = ok tt
map_err (some e) f = err (f e)

module _ (protocol : Protocol) where
  -- The handshake always gives a result, so `none` is not met.
  unfoldable pub handshake : List ℕ → (List ℕ → ℕ → Exchange) → Result UdpTunnelError ℕ
  unfolding attempt_tunnel_handshake
  handshake association network = elim (attempt_tunnel_handshake protocol association network) [
    | none ↦ err handshake_timeout
    | some (result, delays) ↦ result
  ]

  -- The future of the `Tunnel` that is started then ends without a value.
  unfoldable pub create_tunnel : List ℕ → ℕ → List ℕ → Network → Result UdpTunnelError (Unit {0})
  unfolding handshake
  create_tunnel host tunnel_port association network = do
    _ ← map_err network.bind_error bind
    _ ← map_err (network.connect_error host tunnel_port) connect
    _ ← handshake association network.exchanges
    map_err network.pool_error allocate_socket_pool

  -- `host` is `Url::host`, as a text; attempt number `n` meets `network n`.
  unfoldable pub start_udp_tunnel_server :
      {Client Url : Type 0}
      → (Url → Option (List ℕ))
      → ClientContext Client Url
      → ℕ
      → (ℕ → Network)
      → ℕ
      → Service UdpTunnelError
  unfolding create_tunnel reconnect
  start_udp_tunnel_server host ctx tunnel_port network fuel = elim (host ctx.base_url) [
    | none ↦ done
    | some host ↦ elim ctx.association [
      | none ↦ done
      | some association ↦
          reconnect (λ n. create_tunnel host tunnel_port association (network n)) fuel
    ]
  ]
