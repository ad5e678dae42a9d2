-- ===== src/Tunnel/Socket/Stream.antt =====
-- What a socket sends against what it takes from its channel, over a whole `poll`.

use pocket_relay_client_shar.Prelude.{
  ℕ, zero, suc, ◌≡◌, subst, Bool-cases, inl, inr, Option, none, some, List, [], ◌∷◌, ◌++◌, map,
  le→ltb, ◌==◌, ==_iff, length, take, Outcome, ok, panic,
}
use pocket_relay_client_shar.Polling.{Poll, pending, ready, Run, rests, stops, panics, starves}
use pocket_relay_client_shar.Framing.{concat}
use pocket_relay_client_shar.Tunnel.Socket.{
  SocketWriteState, SocketReadState, recv, write, continue, World, Socket, State, min_of,
  is_accepted, set_write_state, write_next, read_next, and_then, poll_write_message,
  poll_write_recv, poll_write_state, write_loop, poll_read_state, read_loop, poll,
}
use pocket_relay_client_shar.Tunnel.Socket.Bytes.{
  left, IsLive, min_of-le, drop_all, take_step, send_step,
}

module _ {In Out : Type 0} (payload : In → List ℕ) where
  -- The socket can be polled, and the payloads from the channel are, byte for byte, what was sent
  -- and what is left of the current message.
  pub record Inv (s : State In Out) : Type 0 where
    pub live : IsLive s.0.write_state
    pub ledger : concat s.1.sent ++ left s.0.write_state ≡ concat (map payload s.1.taken)

  -- What was sent is the beginning of the payloads from the channel.
  pub record Stopped (s : State In Out) : Type 0 where
    pub lost : List ℕ
    pub ledger : concat s.1.sent ++ lost ≡ concat (map payload s.1.taken)

  abbrev AfterWrite : Outcome (Poll SocketWriteState × State In Out) → Type 0
  AfterWrite panic = ⊥
  AfterWrite (ok (pending, s)) = Inv s
  AfterWrite (ok (ready SocketWriteState.stop, s)) = Stopped s
  AfterWrite (ok (ready recv, s)) = Inv (set_write_state recv s)
  AfterWrite (ok (ready (write m), s)) = Inv (set_write_state (write m) s)

  recv_step :
      (self : Socket) (w : World In Out) (rx : List (Poll (Option In)))
      → Inv (record self { write_state = recv }, record w { rx = rx })
      → AfterWrite
          (poll_write_recv payload (record self { write_state = recv }, record w { rx = rx }))
  unfolding poll_write_recv
  recv_step self w [] v = record { live = tt; ledger = v.ledger }
  recv_step self w (pending ∷ rx) v = record { live = tt; ledger = v.ledger }
  recv_step self w (ready none ∷ rx) v = record { lost = []; ledger = v.ledger }
  recv_step self w (ready (some m) ∷ rx) v = record {
    live = tt;
    ledger = take_step payload w.taken m (concat w.sent) v.ledger;
  }

  message_step :
      (self : Socket) (w : World In Out) (m : List ℕ) (script : List (Poll (Option ℕ)))
      → Inv (record self { write_state = write m }, record w { send = script })
      → AfterWrite
          (poll_write_message m (record self { write_state = write m }, record w { send = script }))
  unfolding poll_write_message
  message_step self w m [] v = record { live = tt; ledger = v.ledger }
  message_step self w m (pending ∷ script) v = record { live = tt; ledger = v.ledger }
  message_step self w m (ready none ∷ script) v = record { lost = m; ledger = v.ledger }
  message_step self w m (ready (some n) ∷ script) v =
      let count = min_of n (length m) in
      let sent = send_step w.sent m _ count v.ledger in
      elim (Bool-cases (count == length m)) [
        | inl whole ↦
            rw (poll_write_message, whole)
              (record {
                live = tt;
                ledger =
                    subst
                      (λ l.
                        concat (w.sent ++ (take count m ∷ [])) ++ l ≡ concat (map payload w.taken))
                      (drop_all count m ((==_iff count (length m)).0 whole)) sent;
              })
        | inr part ↦
            rw (poll_write_message, part, le→ltb (length m) count (min_of-le n (length m)))
              (record { live = tt; ledger = sent })
      ]

  write_step :
      (ws : SocketWriteState) (self : Socket) (w : World In Out)
      → Inv (record self { write_state = ws }, w)
      → AfterWrite (poll_write_state payload (record self { write_state = ws }, w))
  unfolding poll_write_state
  write_step recv self w v = recv_step self w w.rx v
  write_step (write m) self w v = message_step self w m w.send v
  write_step SocketWriteState.stop self w v = absurd v.live

  -- How a poll may end: not by a panic.
  abbrev pub Ends : Run (State In Out) → Type 0
  Ends (rests s) = Inv s
  Ends (stops s) = Stopped s
  Ends panics = ⊥
  Ends starves = Unit {0}

  write_next-Ends :
      (rounds : State In Out → Run (State In Out))
      → ((s : State In Out) → Inv s → Ends (rounds s))
      → (r : Outcome (Poll SocketWriteState × State In Out)) → AfterWrite r
      → Ends (write_next rounds r)
  unfolding write_next
  write_next-Ends rounds h panic v = v
  write_next-Ends rounds h (ok (pending, s)) v = v
  write_next-Ends rounds h (ok (ready SocketWriteState.stop, s)) v = record {
    lost = v.lost;
    ledger = v.ledger;
  }
  write_next-Ends rounds h (ok (ready recv, s)) v = h _ v
  write_next-Ends rounds h (ok (ready (write m), s)) v = h _ v

  write_loop-Ends : (fuel : ℕ) (s : State In Out) → Inv s → Ends (write_loop payload fuel s)
  unfolding write_loop
  write_loop-Ends zero s v = tt
  write_loop-Ends (suc fuel) s v =
      write_next-Ends (write_loop payload fuel) (write_loop-Ends fuel) (poll_write_state payload s)
        (write_step s.0.write_state s.0 s.1 v)

  module _ (wrap : ℕ → List ℕ → Out) where
    abbrev AfterRead : Poll SocketReadState × State In Out → Type 0
    AfterRead (pending, s) = Inv s
    AfterRead (ready SocketReadState.stop, s) = Stopped s
    AfterRead (ready continue, s) = Inv s

    stopped : (s : State In Out) → Inv s → Stopped s
    stopped s v = record { lost = left s.0.write_state; ledger = v.ledger }

    read_step :
        (self : Socket) (w : World In Out) (script : List (Poll (Option (List ℕ))))
        → Inv (self, record w { recv = script })
        → AfterRead (poll_read_state wrap (self, record w { recv = script }))
    unfolding poll_read_state
    read_step self w [] v = record { live = v.live; ledger = v.ledger }
    read_step self w (pending ∷ script) v = record { live = v.live; ledger = v.ledger }
    read_step self w (ready none ∷ script) v =
        stopped (self, record w { recv = script }) (record { live = v.live; ledger = v.ledger })
    read_step self w (ready (some bytes) ∷ script) v = elim (Bool-cases (is_accepted w.accepts)) [
      | inl yes_ ↦ rw (poll_read_state, yes_) (record { live = v.live; ledger = v.ledger })
      | inr no_ ↦
          rw (poll_read_state, no_) (record { lost = left self.write_state; ledger = v.ledger })
    ]

    read_next-Ends :
        (rounds : State In Out → Run (State In Out))
        → ((s : State In Out) → Inv s → Ends (rounds s))
        → (r : Poll SocketReadState × State In Out) → AfterRead r
        → Ends (read_next rounds r)
    unfolding read_next
    read_next-Ends rounds h (pending, s) v = v
    read_next-Ends rounds h (ready SocketReadState.stop, s) v = v
    read_next-Ends rounds h (ready continue, s) v = h s v

    read_loop-Ends : (fuel : ℕ) (s : State In Out) → Inv s → Ends (read_loop wrap fuel s)
    unfolding read_loop
    read_loop-Ends zero s v = tt
    read_loop-Ends (suc fuel) s v =
        read_next-Ends (read_loop wrap fuel) (read_loop-Ends fuel) (poll_read_state wrap s)
          (read_step s.0 s.1 s.1.recv v)

    and_then-Ends :
        (fuel : ℕ) (r : Run (State In Out)) → Ends r → Ends (and_then r (read_loop wrap fuel))
    and_then-Ends fuel (rests s) v = read_loop-Ends fuel s v
    and_then-Ends fuel (stops s) v = v
    and_then-Ends fuel panics v = v
    and_then-Ends fuel starves v = tt

    -- Whatever the channels and the socket answer, a `poll` of a live socket does not panic, and the
    -- bytes that it sends are the payloads from the channel in their order, however often a send takes
    -- only a part: when it is left pending, all of them but the rest of the current message, and when
    -- it stops, a beginning of them.
    pub socket_poll-Ends : (fuel : ℕ) (s : State In Out) → Inv s → Ends (poll payload wrap fuel s)
    unfolding poll
    socket_poll-Ends fuel s v =
        and_then-Ends fuel (write_loop payload fuel s) (write_loop-Ends fuel s v)
