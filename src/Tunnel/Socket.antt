-- ===== src/Tunnel/Socket.antt =====
-- `Socket` of src/servers/tunnel.rs: it takes messages of type `In` from the tunnel, whose `payload` it
-- sends, and gives the tunnel what it receives, as `wrap index bytes`; poll_socket is its `poll`, with
-- the messages of src/servers/tunnel.rs. `socket`, `rx` and `tun_tx` are scripts of a `World`.
pub mod Progress
pub mod Bytes
pub mod Stream
pub mod Forward
pub mod Channel
pub mod Translate
use pocket_relay_client_shar.Prelude.{
  ℕ, zero, suc, Bool, true, false, Option, none, some, List, [], ◌∷◌, ◌++◌, ltb, ◌==◌,
  if◌then◌else◌, length, take, drop, Outcome, ok, panic,
}
use pocket_relay_client_shar.Polling.{
  Poll, pending, ready, answer, later, Run, rests, stops, panics, starves,
}
use pocket_relay_client_shar.Tunnel.Codec.{TunnelMessage}

pub data SocketWriteState : Type 0 where
  recv : SocketWriteState
  write : List ℕ → SocketWriteState
  stop : SocketWriteState

pub data SocketReadState : Type 0 where
  continue : SocketReadState
  stop : SocketReadState

-- `rx` and `recv` answer the polls of the channel and of `poll_recv`, where `none` is an error; `send`
-- those of `poll_send`, with the count of bytes, or `none` for an error; `open` whether the channel
-- to the tunnel takes a message. `taken`, `sent` and `given` are what came from `rx`, the bytes of
-- each send, and what the tunnel was given.
pub record World (In Out : Type 0) : Type 0 where
  pub rx : List (Poll (Option In))
  pub send : List (Poll (Option ℕ))
  pub recv : List (Poll (Option (List ℕ)))
  pub accepts : List Bool
  pub taken : List In
  pub sent : List (List ℕ)
  pub given : List Out

pub record Socket : Type 0 where
  pub index : ℕ
  pub write_state : SocketWriteState

abbrev pub State : Type 0 → Type 0 → Type 0
State In Out = Socket × World In Out

abbrev pub min_of : ℕ → ℕ → ℕ
min_of a b = if ltb a b then a else b

abbrev pub is_accepted : List Bool → Bool
is_accepted [] = false
is_accepted (a ∷ script) = a

module _ {In Out : Type 0} where
  abbrev pub rx_poll_recv : World In Out → Poll (Option In) × World In Out
  rx_poll_recv w = elim (answer w.rx) [
    | ready (some m) ↦ (ready (some m), record w { rx = later w.rx; taken = w.taken ++ (m ∷ []) })
    | p ↦ (p, record w { rx = later w.rx })
  ]

  -- A send takes no more bytes than it is given.
  abbrev pub poll_send : List ℕ → World In Out → Poll (Option ℕ) × World In Out
  poll_send message w = elim (answer w.send) [
    | ready (some n) ↦
        let count = min_of n (length message) in
        (
          ready (some count),
          record w { send = later w.send; sent = w.sent ++ (take count message ∷ []) },
        )
    | p ↦ (p, record w { send = later w.send })
  ]

  abbrev pub poll_recv : World In Out → Poll (Option (List ℕ)) × World In Out
  poll_recv w = (answer w.recv, record w { recv = later w.recv })

  -- `self.tun_tx.send(message)`
  abbrev pub tun_send : Out → World In Out → Bool × World In Out
  tun_send m w =
      let v = record w { accepts = later w.accepts } in
      if is_accepted w.accepts then (true, record v { given = v.given ++ (m ∷ []) }) else (false, v)

  abbrev pub set_write_state : SocketWriteState → State In Out → State In Out
  set_write_state next (self, w) = (record self { write_state = next }, w)

  -- A round of the first `while let` loop of `poll`, with the rounds that follow.
  unfoldable pub write_next :
      (State In Out → Run (State In Out))
      → Outcome (Poll SocketWriteState × State In Out)
      → Run (State In Out)
  write_next rounds panic = panics
  write_next rounds (ok (pending, s)) = rests s
  write_next rounds (ok (ready SocketWriteState.stop, s)) =
      stops (set_write_state SocketWriteState.stop s)
  write_next rounds (ok (ready next, s)) = rounds (set_write_state next s)

  -- The second loop.
  unfoldable pub read_next :
      (State In Out → Run (State In Out)) → Poll SocketReadState × State In Out → Run (State In Out)
  read_next rounds (pending, s) = rests s
  read_next rounds (ready SocketReadState.stop, s) = stops s
  read_next rounds (ready continue, s) = rounds s

  abbrev pub and_then :
      Run (State In Out) → (State In Out → Run (State In Out)) → Run (State In Out)
  and_then (rests s) k = k s
  and_then (stops s) k = stops s
  and_then panics k = panics
  and_then starves k = starves

  unfoldable pub poll_write_message :
      List ℕ → State In Out → Outcome (Poll SocketWriteState × State In Out)
  poll_write_message message (self, w) =
      let (result, w) = poll_send message w in
      elim result [
        | pending ↦ ok (pending, (self, w))
        | ready none ↦ ok (ready SocketWriteState.stop, (self, w))
        | ready (some count) ↦
            if count == length message
            then ok (ready recv, (self, w))
            else if ltb (length message) count
            then panic
            else ok (ready (write (drop count message)), (self, w))
      ]

module _ {In Out : Type 0} (payload : In → List ℕ) where
  unfoldable pub poll_write_recv : State In Out → Outcome (Poll SocketWriteState × State In Out)
  poll_write_recv (self, w) =
      let (result, w) = rx_poll_recv w in
      elim result [
        | pending ↦ ok (pending, (self, w))
        | ready (some message) ↦ ok (ready (write (payload message)), (self, w))
        | ready none ↦ ok (ready SocketWriteState.stop, (self, w))
      ]

  unfoldable pub poll_write_state : State In Out → Outcome (Poll SocketWriteState × State In Out)
  unfolding poll_write_recv poll_write_message
  poll_write_state s = elim s.0.write_state [
    | recv ↦ poll_write_recv s
    | write message ↦ poll_write_message message s
    | stop ↦ panic
  ]

  unfoldable pub write_loop : ℕ → State In Out → Run (State In Out)
  unfolding poll_write_state write_next
  write_loop zero s = starves
  write_loop (suc fuel) s = write_next (write_loop fuel) (poll_write_state s)

module _ {In Out : Type 0} (wrap : ℕ → List ℕ → Out) where
  unfoldable pub poll_read_state : State In Out → Poll SocketReadState × State In Out
  poll_read_state (self, w) =
      let (result, w) = poll_recv w in
      elim result [
        | pending ↦ (pending, (self, w))
        | ready none ↦ (ready SocketReadState.stop, (self, w))
        | ready (some bytes) ↦
            let (is_ok, w) = tun_send (wrap self.index bytes) w in
            (ready (if is_ok then continue else SocketReadState.stop), (self, w))
      ]

  unfoldable pub read_loop : ℕ → State In Out → Run (State In Out)
  unfolding poll_read_state read_next
  read_loop zero s = starves
  read_loop (suc fuel) s = read_next (read_loop fuel) (poll_read_state s)

-- `Future::poll`: the read half is polled when the write half has come to rest.
unfoldable pub poll :
    {In Out : Type 0} → (In → List ℕ) → (ℕ → List ℕ → Out) → ℕ → State In Out → Run (State In Out)
unfolding write_loop read_loop
poll payload wrap fuel s = and_then (write_loop payload fuel s) (read_loop wrap fuel)

-- The `poll` of src/servers/tunnel.rs, which unwraps and wraps a `TunnelMessage`.
unfoldable pub poll_socket :
    ℕ → State TunnelMessage TunnelMessage → Run (State TunnelMessage TunnelMessage)
unfolding poll
poll_socket = poll (λ m. m.message) (λ index bytes. record { index = index; message = bytes })
