-- ===== src/UdpTunnel/System.antt =====
-- A tunnel of src/servers/udp_tunnel.rs with the sockets of its pool: the futures `Tunnel` and `Socket`, each
-- polled by a task of its own, and the channels between them, as in Tunnel.System.
pub mod Flow
pub mod Sockets
pub mod Deliveries
pub mod EndToEnd
pub mod Sublists
pub mod Fifo
use pocket_relay_client_shar.Prelude.{
  ℕ, zero, suc, ◌+◌, Option, none, some, List, [], ◌∷◌, ◌++◌, ◌==◌, if◌then◌else◌, length, drop,
  get_elem?, set_elem, Outcome, ok, panic, ◌>>=◌, All,
}
use pocket_relay_client_shar.Polling.{Poll, Run, rests, stops, panics, starves}
use pocket_relay_client_shar.UdpTunnel.Socket.{UdpState, poll_udp_socket}
use pocket_relay_client_shar.Tunnel.System.{sends, feed, socket_arrive, socket_fuel, new_socket}
use pocket_relay_client_shar.UdpTunnel.Message.{
  TunnelMessage, initiate, initiated, forward, keep_alive, Protocol,
}
use pocket_relay_client_shar.UdpTunnel.Relay
use pocket_relay_client_shar.UdpTunnel.Relay.Life.{Arrival, IsFair, arrive, new_tunnel}
use pocket_relay_client_shar.UdpTunnel.Relay.Progress as RelayProgress

pub record System : Type 0 where
  pub tunnel : Relay.State
  pub sockets : List UdpState

-- What the environment adds before a poll: of a tunnel, to its socket and its clock; of a socket of the
-- pool, to that.
pub data Turn : Type 0 where
  poll_tunnel : Arrival → Turn
  poll_socket_at : ℕ → List (Poll (Option ℕ)) → List (Poll (Option (List ℕ))) → Turn

-- The sockets of the pool alone send into the channel of the tunnel.
abbrev pub outside : Arrival → Arrival
outside a = record a { rx = [] }

abbrev pub FairTurn : Turn → Type 0
FairTurn (poll_tunnel a) = IsFair a
FairTurn (poll_socket_at i send recv) = Unit

-- The messages with an index.
abbrev pub from : ℕ → List TunnelMessage → List TunnelMessage
from i [] = []
from i (forward index message ∷ ms) =
    if index == i then forward index message ∷ from i ms else from i ms
from i (initiate token ∷ ms) = from i ms
from i (initiated tunnel_id ∷ ms) = from i ms
from i (keep_alive ∷ ms) = from i ms

abbrev pub from_tunnel : System → List (ℕ × List ℕ) → Run Relay.State → Outcome (Option System)
from_tunnel s before (rests t) =
    ok (
      some (record { tunnel = t; sockets = feed 0 (drop (length before) t.1.delivered) s.sockets }))
from_tunnel s before (stops t) = ok none
from_tunnel s before panics = panic
from_tunnel s before starves = panic

-- The messages that a socket has sent into the channel of the tunnel.
abbrev pub given : List TunnelMessage → Arrival
given new = record {
  rx = sends new;
  send_ready = [];
  send = [];
  ticks = [];
  elapse = [];
  recv_ready = [];
  recv = [];
}

abbrev pub to_tunnel : List TunnelMessage → Relay.State → Relay.State
to_tunnel new t = arrive (given new) t

abbrev pub from_socket : System → ℕ → List TunnelMessage → Run UdpState → Outcome (Option System)
from_socket s i before (rests c) = ok (
    some (record {
      tunnel = to_tunnel (drop (length before) c.1.given) s.tunnel;
      sockets = set_elem s.sockets i c;
    }))
from_socket s i before (stops c) = ok none
from_socket s i before panics = panic
from_socket s i before starves = panic

abbrev pub relay_fuel : Relay.State → ℕ
relay_fuel t = suc (RelayProgress.write_work t.1 + length t.1.recv)

abbrev pub and_so_on : (System → Outcome (Option System)) → Option System → Outcome (Option System)
and_so_on turns none = ok none
and_so_on turns (some s) = turns s

module _ (protocol : Protocol) where
  -- The turn of a future, and no system any more when the future ends. The model's own `starves` counts
  -- as a panic.
  unfoldable pub step : Turn → System → Outcome (Option System)
  unfolding Relay.poll poll_udp_socket
  step (poll_tunnel a) s =
      let t = arrive (outside a) s.tunnel in
      from_tunnel s t.1.delivered (Relay.poll protocol (relay_fuel t) t)
  step (poll_socket_at i send recv) s = elim (get_elem? s.sockets i) [
    | none ↦ ok (some s)
    | some c ↦
        let c = socket_arrive send recv c in
        from_socket s i c.1.given (poll_udp_socket (socket_fuel c) c)
  ]

  unfoldable pub run : List Turn → System → Outcome (Option System)
  unfolding step
  run [] s = ok (some s)
  run (turn ∷ turns) s = do next ← step turn s; and_so_on (run turns) next

abbrev pub pool : List ℕ
pool = 0 ∷ 1 ∷ 2 ∷ 3 ∷ []

-- The system that `create_tunnel` makes with this id at this time.
abbrev pub new_system : ℕ → ℕ → System
new_system tunnel_id now = record {
  tunnel = new_tunnel tunnel_id pool now;
  sockets = new_socket 0 ∷ new_socket 1 ∷ new_socket 2 ∷ new_socket 3 ∷ [];
}
