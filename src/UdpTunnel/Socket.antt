-- ===== src/UdpTunnel/Socket.antt =====
-- `Socket` of src/servers/udp_tunnel.rs: the future that moves messages between a local game and the UDP
-- tunnel. Its states and scripts are those of Tunnel.Socket, its methods are written out from this file.
pub mod Agreement
use pocket_relay_client_shar.Prelude.{
  ℕ, zero, suc, Bool, true, false, Option, none, some, List, ltb, ◌==◌, if◌then◌else◌, length, take,
  drop, Outcome, ok, panic, ◌>>=◌,
}
use pocket_relay_client_shar.Polling.{Poll, pending, ready, Run, rests, stops, panics, starves}
use pocket_relay_client_shar.Tunnel.Socket.{
  SocketWriteState, SocketReadState, recv, write, continue, State, rx_poll_recv, poll_send,
  poll_recv, tun_send, set_write_state, write_next, read_next, and_then,
}
use pocket_relay_client_shar.UdpTunnel.Message.{TunnelMessage, forward}

-- The handles of the sockets carry bytes.
abbrev pub UdpState : Type 0
UdpState = State (List ℕ) TunnelMessage

-- `Vec::split_off`, which leaves the front in place, gives the rest and panics out of range.
unfoldable pub split_off : ℕ → List ℕ → Outcome (List ℕ × List ℕ)
split_off count message =
    if ltb (length message) count then panic else ok (take count message, drop count message)

-- The branches of `poll_write_state`.
unfoldable pub poll_write_recv : UdpState → Outcome (Poll SocketWriteState × UdpState)
poll_write_recv (self, w) =
    let (result, w) = rx_poll_recv w in
    elim result [
      | pending ↦ ok (pending, (self, w))
      | ready (some message) ↦ ok (ready (write message), (self, w))
      | ready none ↦ ok (ready SocketWriteState.stop, (self, w))
    ]

-- `message` is a reference into the write state, which therefore keeps the front until it is replaced.
abbrev pub split_rest : ℕ → List ℕ → UdpState → Outcome (Poll SocketWriteState × UdpState)
split_rest count message s = do
  (front, remaining) ← split_off count message
  ok (ready (write remaining), set_write_state (write front) s)

unfoldable pub poll_write_message : List ℕ → UdpState → Outcome (Poll SocketWriteState × UdpState)
unfolding split_off
poll_write_message message (self, w) =
    let (result, w) = poll_send message w in
    elim result [
      | pending ↦ ok (pending, (self, w))
      | ready none ↦ ok (ready SocketWriteState.stop, (self, w))
      | ready (some count) ↦
          if count == length message
          then ok (ready recv, (self, w))
          else split_rest count message (self, w)
    ]

unfoldable pub poll_write_state : UdpState → Outcome (Poll SocketWriteState × UdpState)
unfolding poll_write_recv poll_write_message
poll_write_state s = elim s.0.write_state [
  | recv ↦ poll_write_recv s
  | write message ↦ poll_write_message message s
  | SocketWriteState.stop ↦ panic
]

unfoldable pub write_loop : ℕ → UdpState → Run UdpState
unfolding poll_write_state write_next
write_loop zero s = starves
write_loop (suc fuel) s = write_next (write_loop fuel) (poll_write_state s)

unfoldable pub poll_read_state : UdpState → Poll SocketReadState × UdpState
poll_read_state (self, w) =
    let (result, w) = poll_recv w in
    elim result [
      | pending ↦ (pending, (self, w))
      | ready none ↦ (ready SocketReadState.stop, (self, w))
      | ready (some bytes) ↦
          let (is_ok, w) = tun_send (forward self.index bytes) w in
          (ready (if is_ok then continue else SocketReadState.stop), (self, w))
    ]

unfoldable pub read_loop : ℕ → UdpState → Run UdpState
unfolding poll_read_state read_next
read_loop zero s = starves
read_loop (suc fuel) s = read_next (read_loop fuel) (poll_read_state s)

-- `Future::poll`: the read half is polled when the write half has come to rest.
unfoldable pub poll_udp_socket : ℕ → UdpState → Run UdpState
unfolding write_loop read_loop
poll_udp_socket fuel s = and_then (write_loop fuel s) (read_loop fuel)
