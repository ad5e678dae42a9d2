-- ===== src/Tunnel/Service.antt =====
-- `create_tunnel` and `start_tunnel_server` of src/servers/tunnel.rs.
pub mod Start
pub mod Sessions
use pocket_relay_client_shar.Prelude.{ℕ, Option, none, some, List}
use pocket_relay_client_shar.Context.{ClientContext}
use pocket_relay_client_shar.Reconnect.{Result, ok, err, Service, done, reconnect}

-- What an attempt meets: the error of `create_server_tunnel` and of `Socket::allocate_pool`, if any;
-- both come out as an error of `std::io`, a number.
pub record Network : Type 0 where
  pub server_error : Option ℕ
  pub pool_error : Option ℕ

abbrev pub fails : Option ℕ → Result ℕ (Unit {0}) → Result ℕ (Unit {0})
fails none next = next
fails (some e) next = err e

-- The future of the `Tunnel` that is started then ends without a value.
unfoldable pub create_tunnel : Network → Result ℕ (Unit {0})
create_tunnel network = fails network.server_error (fails network.pool_error (ok tt))

-- Attempt number `n` with the client, the base URL and the association meets `network` at these.
unfoldable pub start_tunnel_server :
    {Client Url : Type 0}
    → ClientContext Client Url
    → (Client → Url → List ℕ → ℕ → Network)
    → ℕ
    → Service ℕ
unfolding create_tunnel reconnect
start_tunnel_server ctx network fuel = elim ctx.association [
  | none ↦ done
  | some association ↦
      reconnect (λ n. create_tunnel (network ctx.http_client ctx.base_url association n)) fuel
]
