-- ===== src/UdpTunnel/Session/Outcomes.antt =====
-- How a call of `create_tunnel` of src/servers/udp_tunnel.rs goes on.
use pocket_relay_client_shar.Prelude.{
  ℕ, ◌<◌, ◌≡◌, refl, sym, subst, Option, none, some, List, [], length, All, Outcome, ok, panic,
}
use pocket_relay_client_shar.Polling.{Run, rests, stops, panics, starves}
use pocket_relay_client_shar.Reconnect.{◌>>=◌, Result, err}
use pocket_relay_client_shar.Tasks.{Tasks}
use pocket_relay_client_shar.Tunnel.Pool.{
  SocketHandle, Event, Joined, joined, broken, pending, allocate_pool,
}
use pocket_relay_client_shar.Tunnel.Pool.Joins
use pocket_relay_client_shar.Tunnel.Pool.Joins.{Spawned, Joins, allocate_pool-Joins}
use pocket_relay_client_shar.Tunnel.Session.{handle_tasks}
use pocket_relay_client_shar.Tunnel.Session.Outcomes.{Allocated}
use pocket_relay_client_shar.Tunnel.Session.Refinement.{pool_error}
use pocket_relay_client_shar.UdpTunnel.Message.{Protocol}
use pocket_relay_client_shar.UdpTunnel.Handshake.{
  UdpTunnelError, bind, connect, allocate_socket_pool,
}
use pocket_relay_client_shar.UdpTunnel.Service
use pocket_relay_client_shar.UdpTunnel.Service.{handshake, map_err}
use pocket_relay_client_shar.UdpTunnel.Relay.{State}
use pocket_relay_client_shar.UdpTunnel.Relay.Ledger.{Accounted}
use pocket_relay_client_shar.UdpTunnel.Relay.Life.{new_tunnel, Arrival, IsFair, born, Delivers}
use pocket_relay_client_shar.UdpTunnel.Session.Awaits.{offered, Stopped, Awaits, await-Awaits}
use pocket_relay_client_shar.UdpTunnel.Session.{
  Network, Session, refused, unallocated, allocating, relaying, ended, relay, start_relay,
  open_tunnel, with_tunnel_id, create_tunnel,
}

module _ (protocol : Protocol) (host : List ℕ) (tunnel_port : ℕ) (association : List ℕ) where
  -- What the abstract function sees.
  abbrev pub summary : Network → Joined → Service.Network
  summary network result = record {
    bind_error = network.bind_error;
    connect_error = network.connect_error;
    exchanges = network.exchanges;
    pool_error = pool_error result;
  }

  -- `r` is what the abstract function gives.
  abbrev pub Goes :
      Network → Tasks → List Arrival → Result UdpTunnelError (Unit {0}) → Outcome Session → Type 0
  Goes network before arrivals r panic = ⊥
  Goes network before arrivals r (ok (refused e tasks)) = (tasks ≡ before) × (r ≡ err e)
  Goes network before arrivals r (ok (unallocated e tasks)) =
      (r ≡ err e) × (new : List ℕ) × Spawned before tasks new × (length new < 4)
  Goes network before arrivals r (ok (allocating stages tasks)) = Joins.Inv before stages tasks
  Goes network before arrivals r (ok (relaying s tasks)) =
      (tunnel_id : ℕ) × (open_tunnel protocol host tunnel_port association network
        ≡ Result.ok tunnel_id)
      × (pool : List SocketHandle) × Allocated before tasks pool
      × Accounted protocol tunnel_id s
      × Delivers protocol (handle_tasks pool) (offered arrivals) s
  Goes network before arrivals r (ok (ended s tasks)) =
      (r ≡ Result.ok tt)
      × (tunnel_id : ℕ) × (open_tunnel protocol host tunnel_port association network
          ≡ Result.ok tunnel_id)
      × (pool : List SocketHandle) × Allocated before tasks pool
      × Stopped protocol tunnel_id (handle_tasks pool) arrivals s

  relay-Goes :
      (network : Network) (before tasks : Tasks) (arrivals : List Arrival)
      (pool : List SocketHandle) (tunnel_id : ℕ) (r : Run State)
      → open_tunnel protocol host tunnel_port association network ≡ Result.ok tunnel_id
      → Allocated before tasks pool
      → Awaits protocol tunnel_id (handle_tasks pool) arrivals r
      → Goes network before arrivals (Result.ok tt) (relay tasks r)
  relay-Goes network before tasks arrivals pool id (rests s) e a v = (id, e, pool, a, v.0, v.1)
  relay-Goes network before tasks arrivals pool id (stops s) e a v = (refl, id, e, pool, a, v)
  relay-Goes network before tasks arrivals pool id panics e a v = v
  relay-Goes network before tasks arrivals pool id starves e a v = v

  -- The abstract function, from where the tunnel has its id.
  abbrev pub after_open : Joined → Result UdpTunnelError ℕ → Result UdpTunnelError (Unit {0})
  after_open result (err e) = err e
  after_open result (Result.ok tunnel_id) = map_err (pool_error result) allocate_socket_pool

  create_tunnel-summary :
      (network : Network) (result : Joined)
      → Service.create_tunnel protocol host tunnel_port association (summary network result)
        ≡ after_open result (open_tunnel protocol host tunnel_port association network)
  unfolding Service.create_tunnel open_tunnel
  create_tunnel-summary network result =
      steps network.bind_error (network.connect_error host tunnel_port)
        (handshake protocol association network.exchanges)
    where
      steps :
          (b c : Option ℕ) (h : Result UdpTunnelError ℕ)
          → (map_err b bind >>= (λ x.
              map_err c connect
              >>= (λ y. h >>= (λ id. map_err (pool_error result) allocate_socket_pool))))
            ≡ after_open result (map_err b bind >>= (λ x. map_err c connect >>= (λ y. h)))
      steps (some e) c h = refl
      steps none (some e) h = refl
      steps none none (err e) = refl
      steps none none (Result.ok id) = refl

  start_relay-Goes :
      (network : Network) (before : Tasks) (arrivals : List Arrival) (tunnel_id : ℕ)
      (result : Joined)
      → All IsFair arrivals
      → open_tunnel protocol host tunnel_port association network ≡ Result.ok tunnel_id
      → Joins before result
      → Goes network before arrivals
          (map_err (pool_error result) allocate_socket_pool)
          (start_relay protocol arrivals network.now tunnel_id result)
  unfolding start_relay
  start_relay-Goes network before arrivals id (broken e tasks) fair o v = (refl, v.0, v.1, v.2)
  start_relay-Goes network before arrivals id (pending stages tasks) fair o v = v
  start_relay-Goes network before arrivals id (joined pool tasks) fair o (s, new, spawned, perm) =
      relay-Goes network before tasks arrivals pool id _ o
        (record { starts_eq = s; new = new; spawned = spawned; perm = perm })
        (await-Awaits protocol id (handle_tasks pool) [] arrivals
          (new_tunnel id (handle_tasks pool) network.now) fair (born network.now))

  -- Whatever the local socket and the handshake meet, in whatever order the waits of the pool end, and
  -- whatever arrives, on a socket that takes a datagram whenever it said that it is ready, a call of
  -- `create_tunnel` does not panic. It has failed before the pool, and has spawned nothing; or at the
  -- pool, with fewer than four sockets spawned, in both cases with the error that the abstract function
  -- gives; or it still allocates the pool; or it relays, under the id that the handshake gave, between the
  -- server and four sockets in the order of their indexes, which run as the tasks spawned since; or the
  -- tunnel has ended, where the abstract function succeeds. In these last two states it has sent the messages
  -- of the sockets in their order, but for the one in the write state, or for the last at most, and but
  -- for keep-alives, each of which was added or took the place of one message; and each forwarded
  -- message read was delivered, in order, to the socket of its index.
  pub udp_create_tunnel-Goes :
      (network : Network) (events : List Event) (arrivals : List Arrival) (before : Tasks)
      → All IsFair arrivals
      → Goes network before arrivals
          (Service.create_tunnel protocol host tunnel_port association
            (summary network (allocate_pool events before)))
          (create_tunnel protocol host tunnel_port association network events arrivals before)
  unfolding create_tunnel
  udp_create_tunnel-Goes network events arrivals before fair =
      let result = allocate_pool events before in
      subst
        (λ r.
          Goes network before arrivals r
            (create_tunnel protocol host tunnel_port association network events arrivals before))
        (sym (create_tunnel-summary network result))
        (opened (open_tunnel protocol host tunnel_port association network) refl)
    where
      opened :
          (r : Result UdpTunnelError ℕ)
          → open_tunnel protocol host tunnel_port association network ≡ r
          → Goes network before arrivals (after_open (allocate_pool events before) r) (
              with_tunnel_id protocol before
                (λ id. start_relay protocol arrivals network.now id (allocate_pool events before))
                r)
      opened (err e) o = (refl, refl)
      opened (Result.ok id) o =
          start_relay-Goes network before arrivals id (allocate_pool events before) fair o
            (allocate_pool-Joins events before)
