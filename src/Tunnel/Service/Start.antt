-- ===== src/Tunnel/Service/Start.antt =====
-- When the tunnel service runs, and how it ends.
use pocket_relay_client_shar.Prelude.{ℕ, ◌≡◌, Option-cases, none, some, List, ◌⊎◌, inl, inr}
use pocket_relay_client_shar.Context.{ClientContext}
use pocket_relay_client_shar.Reconnect.{done}
use pocket_relay_client_shar.Reconnect.Limit.{GivesUp, reconnect-GivesUp}
use pocket_relay_client_shar.Tunnel.Service.{Network, create_tunnel, start_tunnel_server}

-- Without an association token the service ends at once. Else it makes tunnels until five attempts
-- in a row have failed, and ends with the error of the fifth.
pub start_tunnel_server-GivesUp :
    {Client Url : Type 0} (ctx : ClientContext Client Url)
    (network : Client → Url → List ℕ → ℕ → Network) (fuel : ℕ)
    → ((ctx.association ≡ none) × (start_tunnel_server ctx network fuel ≡ done))
      ⊎ ((association : List ℕ) × (ctx.association ≡ some association)
          × GivesUp
              (λ n. create_tunnel (network ctx.http_client ctx.base_url association n))
              fuel
              (start_tunnel_server ctx network fuel))
unfolding start_tunnel_server
start_tunnel_server-GivesUp ctx network fuel = elim (Option-cases ctx.association) [
  | inl e ↦ inl (e, rw (start_tunnel_server, e))
  | inr (association, e) ↦ inr (
    association,
    e,
    rw (start_tunnel_server, e)
        (reconnect-GivesUp (λ n. create_tunnel (network ctx.http_client ctx.base_url association n))
          fuel),
  )
]
