-- ===== src/Tunnel/Socket/Channel.antt =====
-- A poll of a socket loses no message of its channel: each is taken, or still there.
use pocket_relay_client_shar.Prelude.{
  ℕ, zero, suc, ◌≡◌, ◌∙◌, Bool-cases, inl, inr, Option, none, some, List, [], ◌∷◌, ◌++◌,
  append_assoc, ltb, ◌==◌, length, Outcome, ok, panic,
}
use pocket_relay_client_shar.Polling.{
  messages, Poll, pending, ready, Run, rests, stops, panics, starves,
}
use pocket_relay_client_shar.Tunnel.Socket.{
  SocketWriteState, SocketReadState, recv, write, continue, World, Socket, State, min_of,
  is_accepted, write_next, read_next, and_then, poll_write_message, poll_write_recv,
  poll_write_state, write_loop, poll_read_state, read_loop, poll,
}

module _ {In Out : Type 0} where
  -- All the messages that the channel ever had.
  abbrev pub channel : World In Out → List In
  channel w = w.taken ++ messages w.rx

  module _ (total : List In) where
    abbrev Kept : Outcome (Poll SocketWriteState × State In Out) → Type 0
    Kept panic = Unit
    Kept (ok (a, s)) = channel s.1 ≡ total

    message_Kept :
        (m : List ℕ) (self : Socket) (w : World In Out) (script : List (Poll (Option ℕ)))
        → channel w ≡ total
        → Kept (poll_write_message m (self, record w { send = script }))
    unfolding poll_write_message
    message_Kept m self w [] v = v
    message_Kept m self w (pending ∷ script) v = v
    message_Kept m self w (ready none ∷ script) v = v
    message_Kept m self w (ready (some n) ∷ script) v =
        let count = min_of n (length m) in
        elim (Bool-cases (count == length m)) [
          | inl whole ↦ rw (poll_write_message, whole) v
          | inr part ↦ elim (Bool-cases (ltb (length m) count)) [
            | inl over ↦ rw (poll_write_message, part, over) tt
            | inr fits ↦ rw (poll_write_message, part, fits) v
          ]
        ]

    -- The channel's messages at the end of a poll.
    abbrev pub Keeps : Run (State In Out) → Type 0
    Keeps (rests s) = channel s.1 ≡ total
    Keeps (stops s) = channel s.1 ≡ total
    Keeps _ = Unit

    write_next-Keeps :
        (rounds : State In Out → Run (State In Out))
        → ((s : State In Out) → channel s.1 ≡ total → Keeps (rounds s))
        → (r : Outcome (Poll SocketWriteState × State In Out)) → Kept r
        → Keeps (write_next rounds r)
    unfolding write_next
    write_next-Keeps rounds h panic v = tt
    write_next-Keeps rounds h (ok (pending, s)) v = v
    write_next-Keeps rounds h (ok (ready SocketWriteState.stop, s)) v = v
    write_next-Keeps rounds h (ok (ready recv, s)) v = h _ v
    write_next-Keeps rounds h (ok (ready (write m), s)) v = h _ v

    read_next-Keeps :
        (rounds : State In Out → Run (State In Out))
        → ((s : State In Out) → channel s.1 ≡ total → Keeps (rounds s))
        → (r : Poll SocketReadState × State In Out) → channel r.1.1 ≡ total
        → Keeps (read_next rounds r)
    unfolding read_next
    read_next-Keeps rounds h (pending, s) v = v
    read_next-Keeps rounds h (ready SocketReadState.stop, s) v = v
    read_next-Keeps rounds h (ready continue, s) v = h s v

    and_then-Keeps :
        (r : Run (State In Out)) (k : State In Out → Run (State In Out))
        → Keeps r
        → ((s : State In Out) → channel s.1 ≡ total → Keeps (k s))
        → Keeps (and_then r k)
    and_then-Keeps (rests s) k v h = h s v
    and_then-Keeps (stops s) k v h = v
    and_then-Keeps panics k v h = v
    and_then-Keeps starves k v h = v

    module _ (payload : In → List ℕ) (wrap : ℕ → List ℕ → Out) where
      recv_Kept :
          (self : Socket) (w : World In Out) (rx : List (Poll (Option In)))
          → channel (record w { rx = rx }) ≡ total
          → Kept (poll_write_recv payload (self, record w { rx = rx }))
      unfolding poll_write_recv
      recv_Kept self w [] v = v
      recv_Kept self w (pending ∷ rx) v = v
      recv_Kept self w (ready none ∷ rx) v = v
      recv_Kept self w (ready (some m) ∷ rx) v = append_assoc w.taken (m ∷ []) (messages rx) ∙ v

      write_Kept :
          (ws : SocketWriteState) (self : Socket) (w : World In Out)
          → channel w ≡ total
          → Kept (poll_write_state payload (record self { write_state = ws }, w))
      unfolding poll_write_state
      write_Kept recv self w v = recv_Kept (record self { write_state = recv }) w w.rx v
      write_Kept (write m) self w v =
          message_Kept m (record self { write_state = write m }) w w.send v
      write_Kept SocketWriteState.stop self w v = tt

      write_loop-Keeps :
          (fuel : ℕ) (s : State In Out) → channel s.1 ≡ total → Keeps (write_loop payload fuel s)
      unfolding write_loop
      write_loop-Keeps zero s v = tt
      write_loop-Keeps (suc fuel) s v =
          write_next-Keeps (write_loop payload fuel) (write_loop-Keeps fuel)
            (poll_write_state payload s) (write_Kept s.0.write_state s.0 s.1 v)

      read_channel :
          (self : Socket) (w : World In Out) (script : List (Poll (Option (List ℕ))))
          → channel w ≡ total
          → channel (poll_read_state wrap (self, record w { recv = script })).1.1 ≡ total
      unfolding poll_read_state
      read_channel self w [] v = v
      read_channel self w (pending ∷ script) v = v
      read_channel self w (ready none ∷ script) v = v
      read_channel self w (ready (some bytes) ∷ script) v =
          elim (Bool-cases (is_accepted w.accepts)) [
            | inl taken ↦ rw (poll_read_state, taken) v
            | inr closed ↦ rw (poll_read_state, closed) v
          ]

      read_loop-Keeps :
          (fuel : ℕ) (s : State In Out) → channel s.1 ≡ total → Keeps (read_loop wrap fuel s)
      unfolding read_loop
      read_loop-Keeps zero s v = tt
      read_loop-Keeps (suc fuel) s v =
          read_next-Keeps (read_loop wrap fuel) (read_loop-Keeps fuel) (poll_read_state wrap s)
            (read_channel s.0 s.1 s.1.recv v)

      pub poll-Keeps :
          (fuel : ℕ) (s : State In Out) → channel s.1 ≡ total → Keeps (poll payload wrap fuel s)
      unfolding poll
      poll-Keeps fuel s v =
          and_then-Keeps (write_loop payload fuel s) (read_loop wrap fuel)
            (write_loop-Keeps fuel s v) (read_loop-Keeps fuel)
