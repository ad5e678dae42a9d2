-- ===== src/UdpTunnel/Service/Sessions.antt =====
-- `start_udp_tunnel_server` of src/servers/udp_tunnel.rs with each of its tunnels in detail.
use pocket_relay_client_shar.Prelude.{
  ℕ, ◌≡◌, Option, none, some, List, All, Outcome, ok, panic, ◌>>=◌,
}
use pocket_relay_client_shar.Context.{ClientContext}
use pocket_relay_client_shar.Reconnect
use pocket_relay_client_shar.Reconnect.{Result, done}
use pocket_relay_client_shar.Reconnect.Sessions.{
  Attempt, over, going, Served, stands, serve, tasks_at, Serves, Agrees, serve-Serves,
}
use pocket_relay_client_shar.Tasks.{Tasks}
use pocket_relay_client_shar.Tunnel.Pool.{Event, allocate_pool}
use pocket_relay_client_shar.UdpTunnel.Message.{Protocol}
use pocket_relay_client_shar.UdpTunnel.Handshake.{UdpTunnelError}
use pocket_relay_client_shar.UdpTunnel.Relay.Life.{Arrival, IsFair}
use pocket_relay_client_shar.UdpTunnel.Service
use pocket_relay_client_shar.UdpTunnel.Session.{
  Network, Session, refused, unallocated, allocating, relaying, ended, create_tunnel,
}
use pocket_relay_client_shar.UdpTunnel.Session.Outcomes.{summary, Goes, udp_create_tunnel-Goes}

-- What the loop gets from an attempt.
abbrev pub attempt_of : Session → Attempt UdpTunnelError Session
attempt_of (refused e tasks) = over (Reconnect.err e) tasks
attempt_of (unallocated e tasks) = over (Reconnect.err e) tasks
attempt_of (ended s tasks) = over (Reconnect.ok tt) tasks
attempt_of (allocating stages tasks) = going (allocating stages tasks)
attempt_of (relaying s tasks) = going (relaying s tasks)

-- Attempt number `n` meets `network n`, the waits of its pool end by `events n`, and `arrivals n` arrive.
module _ (protocol : Protocol) (network : ℕ → Network) (events : ℕ → List Event)
    (arrivals : ℕ → List Arrival) where
  unfoldable pub session :
      List ℕ → ℕ → List ℕ → ℕ → Tasks → Outcome (Attempt UdpTunnelError Session)
  unfolding create_tunnel
  session host tunnel_port association n tasks = do
    s ←
        create_tunnel protocol host tunnel_port association (network n) (events n) (arrivals n)
          tasks
    ok (attempt_of s)

  -- `host_of` is `Url::host`, as a text.
  unfoldable pub start_udp_tunnel_server :
      {Client Url : Type 0}
      → (Url → Option (List ℕ))
      → ClientContext Client Url
      → ℕ
      → ℕ
      → Tasks
      → Outcome (Served UdpTunnelError Session)
  unfolding session serve
  start_udp_tunnel_server host_of ctx tunnel_port fuel tasks = elim (host_of ctx.base_url) [
    | none ↦ ok (stands done tasks)
    | some host ↦ elim ctx.association [
      | none ↦ ok (stands done tasks)
      | some association ↦ serve (session host tunnel_port association) fuel tasks
    ]
  ]

  module _ (host : List ℕ) (tunnel_port : ℕ) (association : List ℕ) where
    session-Agrees :
        (met : Network) (before : Tasks) (offers : List Arrival)
        (result : Result UdpTunnelError (Unit {0})) (s : Outcome Session)
        → Goes protocol host tunnel_port association met before offers result s
        → Agrees result (s >>= λ s. ok (attempt_of s))
    session-Agrees met before offers result panic v = v
    session-Agrees met before offers result (ok (refused e tasks)) v = v.1
    session-Agrees met before offers result (ok (unallocated e tasks)) v = v.0
    session-Agrees met before offers result (ok (allocating stages tasks)) v = tt
    session-Agrees met before offers result (ok (relaying s tasks)) v = tt
    session-Agrees met before offers result (ok (ended s tasks)) v = v.0

    -- What the abstract service meets in attempt number `n`.
    abbrev pub met : Tasks → ℕ → Service.Network
    met before n =
        summary protocol host tunnel_port association (network n)
          (allocate_pool (events n) (tasks_at (session host tunnel_port association) before n))

    -- The UDP tunnel service in detail goes on as the abstract one, when the base URL has a host and the
    -- context an association token, and the sockets take a datagram whenever they said that they are
    -- ready: whatever the handshakes, the pools and the tunnels meet, it does not panic; and after any
    -- number of attempts it runs or has failed as the abstract service, with the delays of that, or it
    -- is in the middle of an attempt, where the abstract service has made all the attempts before, and
    -- runs, with the same delays.
    pub start_udp_tunnel_server-Serves :
        {Client Url : Type 0} (host_of : Url → Option (List ℕ)) (ctx : ClientContext Client Url)
        (before : Tasks) (fuel : ℕ)
        → host_of ctx.base_url ≡ some host
        → ctx.association ≡ some association
        → ((n : ℕ) → All IsFair (arrivals n))
        → Serves
            (session host tunnel_port association)
            before
            (Service.start_udp_tunnel_server protocol host_of ctx tunnel_port (met before))
            fuel
            (start_udp_tunnel_server host_of ctx tunnel_port fuel before)
    unfolding start_udp_tunnel_server session Service.start_udp_tunnel_server
    start_udp_tunnel_server-Serves host_of ctx before fuel at_host token fair =
        let abstract =
          λ (n : ℕ). Service.create_tunnel protocol host tunnel_port association (met before n) in
        let found = tasks_at (session host tunnel_port association) before in
        rw (start_udp_tunnel_server, Service.start_udp_tunnel_server, at_host, token)
          (serve-Serves (session host tunnel_port association) before abstract
            (λ n.
              session-Agrees (network n) (found n) (arrivals n) (abstract n)
                (create_tunnel protocol host tunnel_port association (network n) (events n)
                  (arrivals n) (found n))
                (udp_create_tunnel-Goes protocol host tunnel_port association (network n) (events n)
                  (arrivals n) (found n) (fair n)))
            fuel)
