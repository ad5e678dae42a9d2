-- ===== src/Tunnel/Session.antt =====
-- `create_tunnel` of src/servers/tunnel.rs with its parts in place: the request for the connection,
-- the pool of sockets, and the future of the tunnel, which is polled whenever something has arrived.
-- Tunnel.Service has the same function with each part as an error or none.
pub mod Refinement
pub mod Outcomes
use pocket_relay_client_shar.Prelude.{
  ℕ, suc, ◌+◌, Option, none, some, List, [], ◌∷◌, map, length, Outcome, ok, panic, ◌>>=◌,
}
use pocket_relay_client_shar.Polling.{Run, rests, stops, panics, starves}
use pocket_relay_client_shar.Context.{ClientContext}
use pocket_relay_client_shar.Reconnect.{Result, err}
use pocket_relay_client_shar.Tasks.{Tasks}
use pocket_relay_client_shar.Api.Requests.{
  Headers, ServerStreamError, Exchange, create_server_tunnel,
}
use pocket_relay_client_shar.Tunnel.Pool.{
  Stage, SocketHandle, Event, Joined, joined, broken, pending, allocate_pool,
}
use pocket_relay_client_shar.Tunnel.Relay.{State, recv, poll, and_then}
use pocket_relay_client_shar.Tunnel.Relay.Progress.{write_work}
use pocket_relay_client_shar.Tunnel.Relay.Life.{new_world, Arrival, arrive}

-- The struct that `create_tunnel` makes; a handle is the task of its socket.
abbrev pub new_tunnel : List ℕ → State
new_tunnel pool = (record { pool = pool; write_state = recv }, new_world)

-- Fuel for one poll: above the number of stored answers.
abbrev pub enough : State → ℕ
enough s = suc (write_work s.1 + length s.1.next)

-- `.await` of the tunnel: a poll after each arrival, until one is not pending.
unfoldable pub await_tunnel : List Arrival → State → Run State
unfolding poll
await_tunnel [] s = rests s
await_tunnel (arrival ∷ arrivals) s =
    let s = arrive arrival s in and_then (poll (enough s) s) (await_tunnel arrivals)

-- How far a call has come: it has failed at the server or at the pool, it still allocates the pool, it
-- runs the tunnel, or the tunnel has ended.
pub data Session : Type 0 where
  refused : ServerStreamError → Tasks → Session
  unallocated : ℕ → Tasks → Session
  allocating : List Stage → Tasks → Session
  relaying : State → Tasks → Session
  ended : State → Tasks → Session

-- The model's own `starves` counts as a panic here.
abbrev pub relay : Tasks → Run State → Outcome Session
relay tasks (rests s) = ok (relaying s tasks)
relay tasks (stops s) = ok (ended s tasks)
relay tasks panics = panic
relay tasks starves = panic

abbrev pub handle_tasks : List SocketHandle → List ℕ
handle_tasks pool = map (λ h. h.task) pool

unfoldable pub start_relay : List Arrival → Joined → Outcome Session
unfolding await_tunnel
start_relay arrivals (broken e tasks) = ok (unallocated e tasks)
start_relay arrivals (pending stages tasks) = ok (allocating stages tasks)
start_relay arrivals (joined pool tasks) =
    relay tasks (await_tunnel arrivals (new_tunnel (handle_tasks pool)))

abbrev pub with_connection :
    {Io : Type 0} → Tasks → Outcome Session → Result ServerStreamError Io → Outcome Session
with_connection tasks next (err e) = ok (refused e tasks)
with_connection tasks next (Result.ok io) = next

module _ (header_value : List ℕ → Option (List ℕ)) {Client Url Io : Type 0}
    (join : Url → List ℕ → Option Url) (network : Client → Url → Headers → Exchange Io) where
  -- The waits of the pool end by `events`, and the tunnel is polled after each of `arrivals`.
  unfoldable pub create_tunnel :
      ClientContext Client Url → List ℕ → List Event → List Arrival → Tasks → Outcome Session
  unfolding create_server_tunnel allocate_pool start_relay
  create_tunnel ctx association events arrivals tasks = do
    connection ←
        create_server_tunnel header_value join (network ctx.http_client) ctx.base_url association
    with_connection tasks (start_relay arrivals (allocate_pool events tasks)) connection
