-- ===== src/UdpTunnel/Relay.antt =====
-- `Tunnel` of src/servers/udp_tunnel.rs: the future that moves messages between the UDP socket to
-- the server and the pool of sockets. The socket, `rx`, the interval and the clock are scripts of a
-- `World`, which also keeps what the tunnel did. Times are milliseconds; `Instant` does not go back.
pub mod Scripts
pub mod Walk
pub mod Writing
pub mod Safety
pub mod Progress
pub mod Thins
pub mod Ledger
pub mod Accounts
pub mod Channel
pub mod Life
pub mod KeepAlive
pub mod PendingSend
pub mod Route
pub mod Packets
pub mod Routing
pub use Scripts.*
use pocket_relay_client_shar.Prelude.{
  ℕ, zero, suc, ◌+◌, ◌-◌, Bool, true, false, Option, none, some, List, [], ◌∷◌, ◌++◌, ltb,
  if◌then◌else◌, get_elem?, Outcome, ok, panic, ◌>>=◌, expect,
}
use pocket_relay_client_shar.Polling.{
  Poll, pending, ready, answer, later, Run, rests, stops, panics, starves,
}
use pocket_relay_client_shar.UdpTunnel.Message.{
  TunnelMessage, initiate, initiated, forward, keep_alive, Protocol,
}

-- The branches of `poll_write_state`.
unfoldable pub poll_write_recv : State → Outcome (Poll TunnelWriteState × State)
poll_write_recv (self, w) =
    let (result, w) = rx_poll_recv w in
    elim result [
      | pending ↦ ok (pending, (self, w))
      | ready (some message) ↦ ok (ready (write (some message)), (self, w))
      | ready none ↦ ok (ready TunnelWriteState.stop, (self, w))
    ]

-- What follows a poll of the write state inside `poll_read_state`.
abbrev pub after_write : Poll TunnelWriteState × State → Outcome (Poll TunnelReadState × State)
after_write (pending, s) = ok (ready continue, s)
after_write (ready TunnelWriteState.stop, s) =
    ok (ready TunnelReadState.stop, set_write_state TunnelWriteState.stop s)
after_write (ready next, s) = ok (ready continue, set_write_state next s)

-- `self.pool.get(index as usize)` and the delivery.
unfoldable pub deliver : ℕ → List ℕ → State → State
deliver index message (self, w) = elim (get_elem? self.pool index) [
  | none ↦ (self, w)
  | some handle ↦ (self, handle_send handle message w)
]

-- A round of the first `while let` loop of `poll`, with the rounds that follow.
unfoldable pub write_next :
    (State → Run State) → Outcome (Poll TunnelWriteState × State) → Run State
write_next rounds panic = panics
write_next rounds (ok (pending, s)) = rests s
write_next rounds (ok (ready TunnelWriteState.stop, s)) =
    stops (set_write_state TunnelWriteState.stop s)
write_next rounds (ok (ready next, s)) = rounds (set_write_state next s)

-- The second loop.
unfoldable pub read_next : (State → Run State) → Outcome (Poll TunnelReadState × State) → Run State
read_next rounds panic = panics
read_next rounds (ok (pending, s)) = rests s
read_next rounds (ok (ready TunnelReadState.stop, s)) = stops s
read_next rounds (ok (ready continue, s)) = rounds s

abbrev pub and_then : Run State → (State → Run State) → Run State
and_then (rests s) k = k s
and_then (stops s) k = stops s
and_then panics k = panics
and_then starves k = starves

module _ (protocol : Protocol) where
  open protocol use {serialize_message, deserialize_message}

  -- `poll_send` of the message that was taken out of the write state, and its `expect`.
  unfoldable pub poll_write_send : TunnelMessage → State → Outcome (Poll TunnelWriteState × State)
  poll_write_send message (self, w) =
      let (result, w) = poll_send (serialize_message self.tunnel_id message) w in
      elim result [
        | pending ↦ ok (pending, (self, w))
        | ready true ↦ ok (ready recv, (self, w))
        | ready false ↦ panic
      ]

  unfoldable pub poll_write_message :
      Option TunnelMessage → State → Outcome (Poll TunnelWriteState × State)
  unfolding poll_write_send
  poll_write_message message (self, w) =
      let (result, w) = poll_send_ready w in
      elim result [
        | pending ↦ ok (pending, (self, w))
        | ready true ↦ do
          taken ← expect message
          poll_write_send taken (record self { write_state = write none }, w)
        | ready false ↦ ok (ready TunnelWriteState.stop, (self, w))
      ]

  unfoldable pub poll_write_state : State → Outcome (Poll TunnelWriteState × State)
  unfolding poll_write_recv poll_write_message
  poll_write_state s = elim s.0.write_state [
    | recv ↦ poll_write_recv s
    | write message ↦ poll_write_message message s
    | stop ↦ panic
  ]

  unfoldable pub reply_keep_alive : State → Outcome (Poll TunnelReadState × State)
  unfolding poll_write_state
  reply_keep_alive (self, w) =
      let (now, w) = instant_now w in
      do
        result ←
            poll_write_state
              (record self { last_keep_alive = now; write_state = write (some keep_alive) }, w)
        after_write result

  unfoldable pub on_message : TunnelMessage → State → Outcome (Poll TunnelReadState × State)
  unfolding reply_keep_alive deliver
  on_message (forward index message) s = ok (ready continue, deliver index message s)
  on_message keep_alive s = reply_keep_alive s
  on_message (initiate token) s = ok (ready continue, s)
  on_message (initiated tunnel_id) s = ok (ready continue, s)

  -- `poll_read_state` after the check for a keep-alive.
  unfoldable pub poll_receive : State → Outcome (Poll TunnelReadState × State)
  unfolding on_message
  poll_receive (self, w) =
      let (is_ready, w) = poll_recv_ready w in
      elim is_ready [
        | pending ↦ ok (pending, (self, w))
        | ready false ↦ ok (ready TunnelReadState.stop, (self, w))
        | ready true ↦
            let (result, w) = poll_recv w in
            elim result [
              | pending ↦ ok (pending, (self, w))
              | ready none ↦ ok (ready TunnelReadState.stop, (self, w))
              | ready (some buffer) ↦ elim (deserialize_message buffer) [
                | none ↦ ok (ready TunnelReadState.stop, (self, w))
                | some message ↦ on_message message (self, w)
              ]
            ]
      ]

  -- `last_keep_alive.duration_since(now)` is zero where `now` is the later instant. The clock is read
  -- (`v`) if the interval is ready.
  unfoldable pub poll_read_state : State → Outcome (Poll TunnelReadState × State)
  unfolding poll_receive
  poll_read_state (self, w) =
      let (is_ready, w) = poll_tick w in
      let (now, v) = instant_now w in
      let last_alive = self.last_keep_alive - now in
      if is_ready
      then (if ltb keep_alive_timeout last_alive
          then ok (ready TunnelReadState.stop, (self, v))
          else poll_receive (self, v))
      else poll_receive (self, w)

  unfoldable pub write_loop : ℕ → State → Run State
  unfolding poll_write_state write_next
  write_loop zero s = starves
  write_loop (suc fuel) s = write_next (write_loop fuel) (poll_write_state s)

  unfoldable pub read_loop : ℕ → State → Run State
  unfolding poll_read_state read_next
  read_loop zero s = starves
  read_loop (suc fuel) s = read_next (read_loop fuel) (poll_read_state s)

  -- `Future::poll`: the read half is polled when the write half has come to rest.
  unfoldable pub poll : ℕ → State → Run State
  unfolding write_loop read_loop
  poll fuel s = and_then (write_loop fuel s) (read_loop fuel)
