-- ===== src/Tunnel/Relay.antt =====
-- `Tunnel` of src/servers/tunnel.rs: the future that moves messages between the connection to the
-- server and the pool of sockets. `io` and `rx` are scripts of a `World`, which also keeps what
-- the tunnel did. `io` is `Framed` with `TunnelCodec`, whose `encode` does not fail, so `start_send`
-- does not either.
pub mod Sending
pub mod Ledger
pub mod Progress
pub mod Messages
pub mod Routing
pub mod Draining
pub mod Life
pub mod Channel
use pocket_relay_client_shar.Prelude.{
  ℕ, zero, suc, Bool, true, false, Option, none, some, List, [], ◌∷◌, ◌++◌, ◌==◌, if◌then◌else◌,
  get_elem?, Outcome, ok, panic, ◌>>=◌, expect,
}
use pocket_relay_client_shar.Polling.{
  Poll, pending, ready, answer, later, Run, rests, stops, panics, starves,
}
use pocket_relay_client_shar.Tunnel.Codec.{TunnelMessage}

pub data TunnelWriteState : Type 0 where
  recv : TunnelWriteState
  write : Option TunnelMessage → TunnelWriteState
  flush : TunnelWriteState
  stop : TunnelWriteState

pub data TunnelReadState : Type 0 where
  continue : TunnelReadState
  stop : TunnelReadState

-- What `poll_next` gives: a message, an error, or the end of the stream.
pub data Next : Type 0 where
  item : TunnelMessage → Next
  failed : Next
  closed : Next

-- `rx`, `ready`, `flushed` and `next` answer the polls of the channel and of `io`; `true` is `Ok`.
-- `taken` are the messages that came from `rx`, `sent` those given to `start_send`, and `delivered`
-- those sent to a handle, with the handle.
pub record World : Type 0 where
  pub rx : List (Poll (Option TunnelMessage))
  pub ready : List (Poll Bool)
  pub flushed : List (Poll Bool)
  pub next : List (Poll Next)
  pub taken : List TunnelMessage
  pub sent : List TunnelMessage
  pub delivered : List (ℕ × TunnelMessage)

-- A handle of the pool is a number.
pub record Tunnel : Type 0 where
  pub pool : List ℕ
  pub write_state : TunnelWriteState

abbrev pub State : Type 0
State = Tunnel × World

abbrev pub rx_poll_recv : World → Poll (Option TunnelMessage) × World
rx_poll_recv w = elim (answer w.rx) [
  | ready (some m) ↦ (ready (some m), record w { rx = later w.rx; taken = w.taken ++ (m ∷ []) })
  | p ↦ (p, record w { rx = later w.rx })
]

abbrev pub io_poll_ready : World → Poll Bool × World
io_poll_ready w = (answer w.ready, record w { ready = later w.ready })

abbrev pub io_start_send : TunnelMessage → World → World
io_start_send m w = record w { sent = w.sent ++ (m ∷ []) }

abbrev pub io_poll_flush : World → Poll Bool × World
io_poll_flush w = (answer w.flushed, record w { flushed = later w.flushed })

abbrev pub io_poll_next : World → Poll Next × World
io_poll_next w = (answer w.next, record w { next = later w.next })

-- `_ = handle.0.send(message)`
abbrev pub handle_send : ℕ → TunnelMessage → World → World
handle_send handle m w = record w { delivered = w.delivered ++ ((handle, m) ∷ []) }

-- The branches of `poll_write_state`.
unfoldable pub poll_write_recv : State → Outcome (Poll TunnelWriteState × State)
poll_write_recv (self, w) =
    let (result, w) = rx_poll_recv w in
    elim result [
      | pending ↦ ok (pending, (self, w))
      | ready (some message) ↦ ok (ready (write (some message)), (self, w))
      | ready none ↦ ok (ready TunnelWriteState.stop, (self, w))
    ]

unfoldable pub poll_write_message :
    Option TunnelMessage → State → Outcome (Poll TunnelWriteState × State)
poll_write_message message (self, w) =
    let (result, w) = io_poll_ready w in
    elim result [
      | pending ↦ ok (pending, (self, w))
      | ready true ↦ do
        taken ← expect message
        ok (ready flush, (record self { write_state = write none }, io_start_send taken w))
      | ready false ↦ ok (ready TunnelWriteState.stop, (self, w))
    ]

unfoldable pub poll_write_flush : State → Outcome (Poll TunnelWriteState × State)
poll_write_flush (self, w) =
    let (result, w) = io_poll_flush w in
    elim result [
      | pending ↦ ok (pending, (self, w))
      | ready true ↦ ok (ready recv, (self, w))
      | ready false ↦ ok (ready TunnelWriteState.stop, (self, w))
    ]

unfoldable pub poll_write_state : State → Outcome (Poll TunnelWriteState × State)
unfolding poll_write_recv poll_write_message poll_write_flush
poll_write_state s = elim s.0.write_state [
  | recv ↦ poll_write_recv s
  | write message ↦ poll_write_message message s
  | flush ↦ poll_write_flush s
  | stop ↦ panic
]

abbrev pub set_write_state : TunnelWriteState → State → State
set_write_state next (self, w) = (record self { write_state = next }, w)

abbrev pub ping : TunnelMessage
ping = record { index = 255; message = [] }

-- What follows a poll of the write state inside `poll_read_state`.
abbrev pub after_write : Poll TunnelWriteState × State → Outcome (Poll TunnelReadState × State)
after_write (pending, s) = ok (ready continue, s)
after_write (ready TunnelWriteState.stop, s) =
    ok (ready TunnelReadState.stop, set_write_state TunnelWriteState.stop s)
after_write (ready next, s) = ok (ready continue, set_write_state next s)

-- The answer to a keep-alive, unless another message is being written.
unfoldable pub reply_ping : State → Outcome (Poll TunnelReadState × State)
unfolding poll_write_state
reply_ping s = elim s.0.write_state [
  | recv ↦ do result ← poll_write_state (set_write_state (write (some ping)) s); after_write result
  | _ ↦ ok (ready continue, s)
]

-- `self.pool.get(message.index as usize)` and the delivery.
unfoldable pub deliver : TunnelMessage → State → State
deliver message (self, w) = elim (get_elem? self.pool message.index) [
  | none ↦ (self, w)
  | some handle ↦ (self, handle_send handle message w)
]

unfoldable pub poll_read_state : State → Outcome (Poll TunnelReadState × State)
unfolding reply_ping deliver
poll_read_state (self, w) =
    let (result, w) = io_poll_next w in
    elim result [
      | pending ↦ ok (pending, (self, w))
      | ready (item message) ↦
          if message.index == 255
          then reply_ping (self, w)
          else ok (ready continue, deliver message (self, w))
      | ready failed ↦ ok (ready TunnelReadState.stop, (self, w))
      | ready closed ↦ ok (ready TunnelReadState.stop, (self, w))
    ]

-- A round of the first `while let` loop of `poll`, with the rounds that follow.
unfoldable pub write_next :
    (State → Run State) → Outcome (Poll TunnelWriteState × State) → Run State
write_next rounds panic = panics
write_next rounds (ok (pending, s)) = rests s
write_next rounds (ok (ready TunnelWriteState.stop, s)) =
    stops (set_write_state TunnelWriteState.stop s)
write_next rounds (ok (ready next, s)) = rounds (set_write_state next s)

unfoldable pub write_loop : ℕ → State → Run State
unfolding poll_write_state write_next
write_loop zero s = starves
write_loop (suc fuel) s = write_next (write_loop fuel) (poll_write_state s)

-- The second loop.
unfoldable pub read_next : (State → Run State) → Outcome (Poll TunnelReadState × State) → Run State
read_next rounds panic = panics
read_next rounds (ok (pending, s)) = rests s
read_next rounds (ok (ready TunnelReadState.stop, s)) = stops s
read_next rounds (ok (ready continue, s)) = rounds s

unfoldable pub read_loop : ℕ → State → Run State
unfolding poll_read_state read_next
read_loop zero s = starves
read_loop (suc fuel) s = read_next (read_loop fuel) (poll_read_state s)

-- `Future::poll`: the read half is polled when the write half has come to rest.
abbrev pub and_then : Run State → (State → Run State) → Run State
and_then (rests s) k = k s
and_then (stops s) k = stops s
and_then panics k = panics
and_then starves k = starves

unfoldable pub poll : ℕ → State → Run State
unfolding write_loop read_loop
poll fuel s = and_then (write_loop fuel s) (read_loop fuel)
