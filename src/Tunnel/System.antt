-- ===== src/Tunnel/System.antt =====
-- A tunnel of src/servers/tunnel.rs with the sockets of its pool: the futures `Tunnel` and `Socket`, each
-- polled by a task of its own, and the channels between them. A handle of the pool is the place of its
-- socket, and a channel is the script that its receiver reads, to which each send adds a message.
pub mod Channels
pub mod Places
pub mod Flow
pub mod Sockets
pub mod Deliveries
pub mod EndToEnd
pub mod Fifo
pub mod Wire
use pocket_relay_client_shar.Prelude.{
  ℕ, zero, suc, ◌+◌, Bool, true, Option, none, some, List, [], ◌∷◌, ◌++◌, map, ◌==◌, if◌then◌else◌,
  length, drop, get_elem?, set_elem, Outcome, ok, panic, ◌>>=◌,
}
use pocket_relay_client_shar.Polling.{Poll, ready, Run, rests, stops, panics, starves}
use pocket_relay_client_shar.Tunnel.Codec.{TunnelMessage}
use pocket_relay_client_shar.Tunnel.Relay
use pocket_relay_client_shar.Tunnel.Relay.Progress as RelayProgress
use pocket_relay_client_shar.Tunnel.Relay.Life.{Arrival, arrive, new_world}
use pocket_relay_client_shar.Tunnel.Socket
use pocket_relay_client_shar.Tunnel.Socket.{poll_socket}
use pocket_relay_client_shar.Tunnel.Socket.Progress as SocketProgress

abbrev pub SocketState : Type 0
SocketState = Socket.State TunnelMessage TunnelMessage

pub record System : Type 0 where
  pub tunnel : Relay.State
  pub sockets : List SocketState

-- What the environment adds before a poll: of a tunnel, to its connection; of a socket, to its socket.
pub data Turn : Type 0 where
  poll_tunnel : List (Poll Bool) → List (Poll Bool) → List (Poll Relay.Next) → Turn
  poll_socket_at : ℕ → List (Poll (Option ℕ)) → List (Poll (Option (List ℕ))) → Turn

-- The messages of the deliveries to a handle, and those with an index.
abbrev pub sent_to : {A : Type 0} → ℕ → List (ℕ × A) → List A
sent_to i [] = []
sent_to i (d ∷ ds) = if d.0 == i then d.1 ∷ sent_to i ds else sent_to i ds

abbrev pub from : ℕ → List TunnelMessage → List TunnelMessage
from i [] = []
from i (m ∷ ms) = if m.index == i then m ∷ from i ms else from i ms

abbrev pub sends : {A : Type 0} → List A → List (Poll (Option A))
sends ms = map (λ m. ready (some m)) ms

-- The deliveries of a poll, into the channels of the sockets, of which the first has this place.
abbrev pub feed :
    {In Out : Type 0} → ℕ → List (ℕ × In) → List (Socket.State In Out) → List (Socket.State In Out)
feed i new [] = []
feed i new ((self, w) ∷ sockets) =
    (self, record w { rx = w.rx ++ sends (sent_to i new) }) ∷ feed (suc i) new sockets

abbrev pub from_tunnel :
    System → List (ℕ × TunnelMessage) → Run Relay.State → Outcome (Option System)
from_tunnel s before (rests t) =
    ok (
      some (record { tunnel = t; sockets = feed 0 (drop (length before) t.1.delivered) s.sockets }))
from_tunnel s before (stops t) = ok none
from_tunnel s before panics = panic
from_tunnel s before starves = panic

-- The tunnel lives, so that its channel takes each message.
abbrev pub accepting : List (Poll (Option (List ℕ))) → List Bool
accepting recv = map (λ p. true) recv

abbrev pub socket_arrive :
    {In Out : Type 0}
    → List (Poll (Option ℕ))
    → List (Poll (Option (List ℕ)))
    → Socket.State In Out
    → Socket.State In Out
socket_arrive send recv (self, w) = (
  self,
  record w { send = w.send ++ send; recv = w.recv ++ recv; accepts = accepting (w.recv ++ recv) },
)

-- The messages that a socket has sent into the channel of the tunnel.
abbrev pub to_tunnel : List TunnelMessage → Relay.State → Relay.State
to_tunnel new t = arrive (record { rx = sends new; ready = []; flushed = []; next = [] }) t

abbrev pub from_socket : System → ℕ → List TunnelMessage → Run SocketState → Outcome (Option System)
from_socket s i before (rests c) = ok (
    some (record {
      tunnel = to_tunnel (drop (length before) c.1.given) s.tunnel;
      sockets = set_elem s.sockets i c;
    }))
from_socket s i before (stops c) = ok none
from_socket s i before panics = panic
from_socket s i before starves = panic

abbrev pub relay_fuel : Relay.State → ℕ
relay_fuel t = suc (RelayProgress.write_work t.1 + length t.1.next)

abbrev pub socket_fuel : {In Out : Type 0} → Socket.State In Out → ℕ
socket_fuel c = suc (SocketProgress.write_work c.1 + length c.1.recv)

abbrev pub tunnel_arrive :
    List (Poll Bool) → List (Poll Bool) → List (Poll Relay.Next) → Relay.State → Relay.State
tunnel_arrive io_ready io_flushed io_next t =
    arrive (record { rx = []; ready = io_ready; flushed = io_flushed; next = io_next }) t

-- The turn of a future, and no system any more when the future ends. The model's own `starves` counts
-- as a panic.
unfoldable pub step : Turn → System → Outcome (Option System)
unfolding Relay.poll poll_socket
step (poll_tunnel io_ready io_flushed io_next) s =
    let t = tunnel_arrive io_ready io_flushed io_next s.tunnel in
    from_tunnel s t.1.delivered (Relay.poll (relay_fuel t) t)
step (poll_socket_at i send recv) s = elim (get_elem? s.sockets i) [
  | none ↦ ok (some s)
  | some c ↦
      let c = socket_arrive send recv c in from_socket s i c.1.given (poll_socket (socket_fuel c) c)
]

abbrev pub and_so_on : (System → Outcome (Option System)) → Option System → Outcome (Option System)
and_so_on turns none = ok none
and_so_on turns (some s) = turns s

unfoldable pub run : List Turn → System → Outcome (Option System)
unfolding step
run [] s = ok (some s)
run (turn ∷ turns) s = do next ← step turn s; and_so_on (run turns) next

abbrev pub new_socket : {In Out : Type 0} → ℕ → Socket.State In Out
new_socket i = (
  record { index = i; write_state = Socket.recv },
  record { rx = []; send = []; recv = []; accepts = []; taken = []; sent = []; given = [] },
)

-- The system that `create_tunnel` makes.
abbrev pub new_system : System
new_system = record {
  tunnel = (record { pool = 0 ∷ 1 ∷ 2 ∷ 3 ∷ []; write_state = Relay.recv }, new_world);
  sockets = new_socket 0 ∷ new_socket 1 ∷ new_socket 2 ∷ new_socket 3 ∷ [];
}
