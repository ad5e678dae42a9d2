-- ===== src/UdpTunnel/Service/Start.antt =====
-- When the UDP tunnel service runs, and how it ends.
use pocket_relay_client_shar.Prelude.{
  ℕ, ◌≡◌, ◌↔◌, refl, Option, Option-cases, none, some, List, ◌⊎◌, inl, inr,
}
use pocket_relay_client_shar.Context.{ClientContext}
use pocket_relay_client_shar.Reconnect.{◌>>=◌, Result, ok, err, done}
use pocket_relay_client_shar.Reconnect.Limit.{GivesUp, reconnect-GivesUp}
use pocket_relay_client_shar.UdpTunnel.Message.{Protocol}
use pocket_relay_client_shar.UdpTunnel.Handshake.{
  UdpTunnelError, bind, connect, allocate_socket_pool,
}
use pocket_relay_client_shar.UdpTunnel.Service.{
  Network, map_err, handshake, create_tunnel, start_udp_tunnel_server,
}

chain-ok :
    (b c : Option ℕ) (h : Result UdpTunnelError ℕ) (p : Option ℕ)
    → (map_err b bind >>= λ _. map_err c connect >>= λ _. h >>= λ _. map_err p allocate_socket_pool)
      ≡ ok tt
    → (tunnel_id : ℕ) × (b ≡ none) × (c ≡ none) × (h ≡ ok tunnel_id) × (p ≡ none)
chain-ok none none (ok tunnel_id) none e = (tunnel_id, refl, refl, refl, refl)
chain-ok none none (ok tunnel_id) (some p) e = cc e
chain-ok none none (err h) p e = cc e
chain-ok none (some c) h p e = cc e
chain-ok (some b) c h p e = cc e

module _ (protocol : Protocol) where
  -- A tunnel is created exactly when the socket can be bound and connected, the handshake gives a
  -- tunnel id, and the pool can be allocated.
  pub create_tunnel-ok :
      (host : List ℕ) (tunnel_port : ℕ) (association : List ℕ) (network : Network)
      → (create_tunnel protocol host tunnel_port association network ≡ ok tt) ↔ (
          (tunnel_id : ℕ) × (network.bind_error ≡ none)
          × (network.connect_error host tunnel_port ≡ none)
          × (handshake protocol association network.exchanges ≡ ok tunnel_id)
          × (network.pool_error ≡ none))
  unfolding create_tunnel
  create_tunnel-ok host tunnel_port association network = (
    chain-ok network.bind_error (network.connect_error host tunnel_port)
        (handshake protocol association network.exchanges) network.pool_error,
    λ h. rw (create_tunnel, h.1, h.2, h.3, h.4),
  )

  -- Without a host or an association token the service ends at once. Else it makes tunnels until five
  -- attempts in a row have failed, and ends with the error of the fifth.
  pub start_udp_tunnel_server-GivesUp :
      {Client Url : Type 0} (host_of : Url → Option (List ℕ)) (ctx : ClientContext Client Url)
      (tunnel_port : ℕ) (network : ℕ → Network) (fuel : ℕ)
      → let service = start_udp_tunnel_server protocol host_of ctx tunnel_port network fuel in
        (((host_of ctx.base_url ≡ none) ⊎ (ctx.association ≡ none)) × (service ≡ done))
        ⊎ ((host : List ℕ) × (association : List ℕ) × (host_of ctx.base_url ≡ some host)
            × (ctx.association ≡ some association)
            × GivesUp
                (λ n. create_tunnel protocol host tunnel_port association (network n))
                fuel
                service)
  unfolding start_udp_tunnel_server
  start_udp_tunnel_server-GivesUp host_of ctx tunnel_port network fuel =
      elim (Option-cases (host_of ctx.base_url)) [
        | inl e ↦ inl (inl e, rw (start_udp_tunnel_server, e))
        | inr (host, e) ↦ elim (Option-cases ctx.association) [
          | inl a ↦ inl (inr a, rw (start_udp_tunnel_server, e, a))
          | inr (association, a) ↦ inr (
            host,
            association,
            e,
            a,
            rw (start_udp_tunnel_server, e, a)
                (reconnect-GivesUp
                  (λ n. create_tunnel protocol host tunnel_port association (network n)) fuel),
          )
        ]
      ]
