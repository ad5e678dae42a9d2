-- ===== src/UdpTunnel/Session.antt =====
-- `create_tunnel` of src/servers/udp_tunnel.rs with its parts in place: the local socket, the handshake,
-- the pool of sockets, and the future of the tunnel, which is polled whenever something has arrived.
-- UdpTunnel.Service has the same function with each part as an error or none.
pub mod Awaits
pub mod Outcomes
use pocket_relay_client_shar.Prelude.{
  ℕ, suc, ◌+◌, Option, none, some, List, [], ◌∷◌, length, Outcome, ok, panic,
}
use pocket_relay_client_shar.Polling.{Run, rests, stops, panics, starves}
use pocket_relay_client_shar.Reconnect.{◌>>=◌, Result, err}
use pocket_relay_client_shar.Tasks.{Tasks}
use pocket_relay_client_shar.Tunnel.Pool.{
  Stage, Event, Joined, joined, broken, pending, allocate_pool,
}
use pocket_relay_client_shar.Tunnel.Session.{handle_tasks}
use pocket_relay_client_shar.UdpTunnel.Message.{Protocol}
use pocket_relay_client_shar.UdpTunnel.Handshake.{
  UdpTunnelError, bind, connect, allocate_socket_pool, Exchange,
}
use pocket_relay_client_shar.UdpTunnel.Service.{map_err, handshake}
use pocket_relay_client_shar.UdpTunnel.Relay.{State, poll, and_then}
use pocket_relay_client_shar.UdpTunnel.Relay.Progress.{write_work}
use pocket_relay_client_shar.UdpTunnel.Relay.Life.{new_tunnel, Arrival, arrive}

-- What the call meets before it allocates the pool, and the time when the pool is there.
pub record Network : Type 0 where
  pub bind_error : Option ℕ
  pub connect_error : List ℕ → ℕ → Option ℕ
  pub exchanges : List ℕ → ℕ → Exchange
  pub now : ℕ

-- How far a call has come: it has failed before the pool, or at the pool, it still allocates the pool,
-- it runs the tunnel, or the tunnel has ended.
pub data Session : Type 0 where
  refused : UdpTunnelError → Tasks → Session
  unallocated : UdpTunnelError → Tasks → Session
  allocating : List Stage → Tasks → Session
  relaying : State → Tasks → Session
  ended : State → Tasks → Session

-- Fuel for one poll: above the number of stored answers.
abbrev pub enough : State → ℕ
enough s = suc (write_work s.1 + length s.1.recv)

-- The model's own `starves` counts as a panic here.
abbrev pub relay : Tasks → Run State → Outcome Session
relay tasks (rests s) = ok (relaying s tasks)
relay tasks (stops s) = ok (ended s tasks)
relay tasks panics = panic
relay tasks starves = panic

module _ (protocol : Protocol) where
  -- `.await` of the tunnel: a poll after each arrival, until one is not pending.
  unfoldable pub await_tunnel : List Arrival → State → Run State
  unfolding poll
  await_tunnel [] s = rests s
  await_tunnel (arrival ∷ arrivals) s =
      let s = arrive arrival s in and_then (poll protocol (enough s) s) (await_tunnel arrivals)

  unfoldable pub start_relay : List Arrival → ℕ → ℕ → Joined → Outcome Session
  unfolding await_tunnel
  start_relay arrivals now tunnel_id (broken e tasks) =
      ok (unallocated (allocate_socket_pool e) tasks)
  start_relay arrivals now tunnel_id (pending stages tasks) = ok (allocating stages tasks)
  start_relay arrivals now tunnel_id (joined pool tasks) =
      relay tasks (await_tunnel arrivals (new_tunnel tunnel_id (handle_tasks pool) now))

  -- The local socket, and the handshake for the id of the tunnel.
  unfoldable pub open_tunnel : List ℕ → ℕ → List ℕ → Network → Result UdpTunnelError ℕ
  unfolding handshake
  open_tunnel host tunnel_port association network = do
    _ ← map_err network.bind_error bind
    _ ← map_err (network.connect_error host tunnel_port) connect
    handshake protocol association network.exchanges

  abbrev pub with_tunnel_id :
      Tasks → (ℕ → Outcome Session) → Result UdpTunnelError ℕ → Outcome Session
  with_tunnel_id tasks next (err e) = ok (refused e tasks)
  with_tunnel_id tasks next (Result.ok tunnel_id) = next tunnel_id

  -- The waits of the pool end by `events`, and the tunnel is polled after each of `arrivals`.
  unfoldable pub create_tunnel :
      List ℕ → ℕ → List ℕ → Network → List Event → List Arrival → Tasks → Outcome Session
  unfolding open_tunnel allocate_pool start_relay
  create_tunnel host tunnel_port association network events arrivals tasks =
      with_tunnel_id tasks
        (λ tunnel_id. start_relay arrivals network.now tunnel_id (allocate_pool events tasks))
        (open_tunnel host tunnel_port association network)
