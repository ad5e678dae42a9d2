-- ===== src/Tunnel/System/Flow.antt =====
-- What goes through a tunnel and its sockets, from end to end.
use pocket_relay_client_shar.Prelude.{
  Outcome, ok, panic, Option, none, some, ℕ, ◌≡◌, refl, sym, ap, ◌∙◌, Bool-cases, inl, inr, List,
  [], ◌∷◌, ◌++◌, append_assoc, ◌==◌, if◌then◌else◌,
}
use pocket_relay_client_shar.Polling.{Poll}
use pocket_relay_client_shar.Tunnel.Codec.{TunnelMessage}
use pocket_relay_client_shar.Tunnel.Relay
use pocket_relay_client_shar.Tunnel.Relay.Channel as RelayChannel
use pocket_relay_client_shar.Tunnel.Socket.Stream
use pocket_relay_client_shar.Tunnel.Socket.Forward.{received}
use pocket_relay_client_shar.Tunnel.Socket.Channel as SocketChannel
use pocket_relay_client_shar.Tunnel.Relay.Life.{Life}
use pocket_relay_client_shar.Tunnel.System.Places.{AllAt}
use pocket_relay_client_shar.Tunnel.System.{System}
use pocket_relay_client_shar.Tunnel.System.{
  SocketState, Turn, poll_tunnel, poll_socket_at, sent_to, from,
}
use pocket_relay_client_shar.Tunnel.System.Channels.{wrapped}

abbrev pub payload : TunnelMessage → List ℕ
payload m = m.message

abbrev pub wrap : ℕ → List ℕ → TunnelMessage
wrap index bytes = record { index = index; message = bytes }

-- The datagrams that the socket at a place had to read, and what the connection had to give.
abbrev pub heard : ℕ → List Turn → List (List ℕ)
heard i [] = []
heard i (poll_tunnel r f n ∷ turns) = heard i turns
heard i (poll_socket_at j send recv ∷ turns) =
    if j == i then received recv ++ heard i turns else heard i turns

abbrev pub answers : List Turn → List (Poll Relay.Next)
answers [] = []
answers (poll_tunnel r f n ∷ turns) = n ++ answers turns
answers (poll_socket_at j send recv ∷ turns) = answers turns

pub heard-append : (i : ℕ) (xs ys : List Turn) → heard i (xs ++ ys) ≡ heard i xs ++ heard i ys
heard-append i [] ys = refl
heard-append i (poll_tunnel r f n ∷ xs) ys = heard-append i xs ys
heard-append i (poll_socket_at j send recv ∷ xs) ys = elim (Bool-cases (j == i)) [
  | inl e ↦ rw e (
      ap (λ l. received recv ++ l) (heard-append i xs ys)
      ∙ sym (append_assoc (received recv) (heard i xs) (heard i ys)))
  | inr e ↦ rw e (heard-append i xs ys)
]

pub answers-append : (xs ys : List Turn) → answers (xs ++ ys) ≡ answers xs ++ answers ys
answers-append [] ys = refl
answers-append (poll_tunnel r f n ∷ xs) ys =
    ap (λ l. n ++ l) (answers-append xs ys) ∙ sym (append_assoc n (answers xs) (answers ys))
answers-append (poll_socket_at j send recv ∷ xs) ys = answers-append xs ys

-- What holds between the tunnel and the socket at a place. Downwards: the channel of the socket had the
-- messages that the tunnel delivered to it, and what it sent to the game are the bytes of those that it
-- took. Upwards: of the datagrams of the game, the socket gave the tunnel those that it has read, and
-- they are the messages with its index in the channel of the tunnel. All of it in order.
pub record Flow (turns : List Turn) (t : Relay.State) (i : ℕ) (c : SocketState) : Type 0 where
  pub index_eq : c.0.index ≡ i
  pub inv : Stream.Inv payload c
  pub down : SocketChannel.channel c.1 ≡ sent_to i t.1.delivered
  pub datagrams : List (List ℕ)
  pub given_eq : c.1.given ≡ wrapped i datagrams
  pub heard_eq : heard i turns ≡ datagrams ++ received c.1.recv
  pub up : from i (RelayChannel.channel t.1) ≡ c.1.given

abbrev pub pool : List ℕ
pool = 0 ∷ 1 ∷ 2 ∷ 3 ∷ []

-- After these turns: the tunnel has lived over its pool, and each socket is in step with it.
pub record Sound (turns : List Turn) (s : System) : Type 0 where
  pub life : Life pool (answers turns) s.tunnel
  pub flows : AllAt (Flow turns s.tunnel) 0 s.sockets

-- The system after a turn, if there is one, is in step; and there was no panic.
abbrev pub Goes : List Turn → Outcome (Option System) → Type 0
Goes turns panic = ⊥
Goes turns (ok none) = Unit
Goes turns (ok (some s)) = Sound turns s
