-- ===== src/Tunnel/Socket/Translate.antt =====
-- A change of the messages of a `Socket` that keeps their bytes.
use mathlib.Core.List.{map-append}
use pocket_relay_client_shar.Prelude.{
  ℕ, zero, suc, ◌≡◌, refl, ap, ◌∙◌, Bool, Bool-cases, inl, inr, true, false, Option, none, some,
  List, [], ◌∷◌, map, ltb, ◌==◌, length, Outcome, ok, panic,
}
use pocket_relay_client_shar.Polling.{Poll, pending, ready, Run, rests, stops, panics, starves}
use pocket_relay_client_shar.Tunnel.Codec.{TunnelMessage}
use pocket_relay_client_shar.UdpTunnel.Message
use pocket_relay_client_shar.Tunnel.Socket.{
  SocketWriteState, SocketReadState, recv, write, continue, World, Socket, State, min_of, poll,
  poll_write_recv, poll_write_message, poll_write_state, poll_read_state, write_next, read_next,
  write_loop, read_loop, and_then,
}

module _ {In Out In' Out' : Type 0} (f : In → In') (g : Out → Out') where
  abbrev pub translate_poll : Poll (Option In) → Poll (Option In')
  translate_poll pending = pending
  translate_poll (ready none) = ready none
  translate_poll (ready (some m)) = ready (some (f m))

  -- The same socket with its messages changed.
  abbrev pub translate_world : World In Out → World In' Out'
  translate_world w = record {
    rx = map translate_poll w.rx;
    send = w.send;
    recv = w.recv;
    accepts = w.accepts;
    taken = map f w.taken;
    sent = w.sent;
    given = map g w.given;
  }

  abbrev pub translate : State In Out → State In' Out'
  translate (self, w) = (self, translate_world w)

  abbrev pub translate_run : Run (State In Out) → Run (State In' Out')
  translate_run (rests s) = rests (translate s)
  translate_run (stops s) = stops (translate s)
  translate_run panics = panics
  translate_run starves = starves

  abbrev translate_write :
      Outcome (Poll SocketWriteState × State In Out)
      → Outcome (Poll SocketWriteState × State In' Out')
  translate_write panic = panic
  translate_write (ok (p, s)) = ok (p, translate s)

  abbrev translate_read :
      Poll SocketReadState × State In Out → Poll SocketReadState × State In' Out'
  translate_read (p, s) = (p, translate s)

  module _ (payload : In → List ℕ) (payload' : In' → List ℕ) (wrap : ℕ → List ℕ → Out)
      (wrap' : ℕ → List ℕ → Out') (payloads : (m : In) → payload' (f m) ≡ payload m)
      (wraps : (i : ℕ) (bytes : List ℕ) → g (wrap i bytes) ≡ wrap' i bytes) where
    recv_step :
        (self : Socket) (w : World In Out) (rx : List (Poll (Option In)))
        → poll_write_recv payload' (translate (self, record w { rx = rx }))
          ≡ translate_write (poll_write_recv payload (self, record w { rx = rx }))
    unfolding poll_write_recv
    recv_step self w [] = refl
    recv_step self w (pending ∷ rx) = refl
    recv_step self w (ready none ∷ rx) = refl
    recv_step self w (ready (some m) ∷ rx) = rw (payloads m, map-append f w.taken (m ∷ []))

    message_step :
        (message : List ℕ) (self : Socket) (w : World In Out) (send : List (Poll (Option ℕ)))
        → poll_write_message message (translate (self, record w { send = send }))
          ≡ translate_write (poll_write_message message (self, record w { send = send }))
    unfolding poll_write_message
    message_step message self w [] = refl
    message_step message self w (pending ∷ send) = refl
    message_step message self w (ready none ∷ send) = refl
    message_step message self w (ready (some n) ∷ send) =
        let count = min_of n (length message) in
        elim (Bool-cases (count == length message)) [
          | inl e ↦ rw e
          | inr e ↦ elim (Bool-cases (ltb (length message) count)) [
            | inl l ↦ rw (e, l)
            | inr l ↦ rw (e, l)
          ]
        ]

    write_step :
        (ws : SocketWriteState) (self : Socket) (w : World In Out)
        → poll_write_state payload' (translate (record self { write_state = ws }, w))
          ≡ translate_write (poll_write_state payload (record self { write_state = ws }, w))
    unfolding poll_write_state
    write_step recv self w = recv_step (record self { write_state = recv }) w w.rx
    write_step (write message) self w =
        message_step message (record self { write_state = write message }) w w.send
    write_step SocketWriteState.stop self w = refl

    write_next-translate :
        (rounds : State In Out → Run (State In Out))
        (rounds' : State In' Out' → Run (State In' Out'))
        → ((t : State In Out) → rounds' (translate t) ≡ translate_run (rounds t))
        → (r : Outcome (Poll SocketWriteState × State In Out))
        → write_next rounds' (translate_write r) ≡ translate_run (write_next rounds r)
    unfolding write_next
    write_next-translate rounds rounds' h panic = refl
    write_next-translate rounds rounds' h (ok (pending, t)) = refl
    write_next-translate rounds rounds' h (ok (ready SocketWriteState.stop, t)) = refl
    write_next-translate rounds rounds' h (ok (ready recv, t)) = h _
    write_next-translate rounds rounds' h (ok (ready (write m), t)) = h _

    write_loop-translate :
        (fuel : ℕ) (s : State In Out)
        → write_loop payload' fuel (translate s) ≡ translate_run (write_loop payload fuel s)
    unfolding write_loop
    write_loop-translate zero s = refl
    write_loop-translate (suc fuel) s =
        ap (write_next (write_loop payload' fuel)) (write_step s.0.write_state s.0 s.1)
        ∙ write_next-translate (write_loop payload fuel) (write_loop payload' fuel)
            (write_loop-translate fuel) (poll_write_state payload s)

    read_step :
        (self : Socket) (w : World In Out) (script : List (Poll (Option (List ℕ))))
        (accepts : List Bool)
        → poll_read_state wrap' (translate (self, record w { recv = script; accepts = accepts }))
          ≡ translate_read
              (poll_read_state wrap (self, record w { recv = script; accepts = accepts }))
    unfolding poll_read_state
    read_step self w [] accepts = refl
    read_step self w (pending ∷ script) accepts = refl
    read_step self w (ready none ∷ script) accepts = refl
    read_step self w (ready (some bytes) ∷ script) [] = refl
    read_step self w (ready (some bytes) ∷ script) (false ∷ accepts) = refl
    read_step self w (ready (some bytes) ∷ script) (true ∷ accepts) =
        rw (map-append g w.given (wrap self.index bytes ∷ []), wraps self.index bytes)

    read_next-translate :
        (rounds : State In Out → Run (State In Out))
        (rounds' : State In' Out' → Run (State In' Out'))
        → ((t : State In Out) → rounds' (translate t) ≡ translate_run (rounds t))
        → (r : Poll SocketReadState × State In Out)
        → read_next rounds' (translate_read r) ≡ translate_run (read_next rounds r)
    unfolding read_next
    read_next-translate rounds rounds' h (pending, t) = refl
    read_next-translate rounds rounds' h (ready SocketReadState.stop, t) = refl
    read_next-translate rounds rounds' h (ready continue, t) = h t

    read_loop-translate :
        (fuel : ℕ) (s : State In Out)
        → read_loop wrap' fuel (translate s) ≡ translate_run (read_loop wrap fuel s)
    unfolding read_loop
    read_loop-translate zero s = refl
    read_loop-translate (suc fuel) s =
        ap (read_next (read_loop wrap' fuel)) (read_step s.0 s.1 s.1.recv s.1.accepts)
        ∙ read_next-translate (read_loop wrap fuel) (read_loop wrap' fuel)
            (read_loop-translate fuel) (poll_read_state wrap s)

    and_then-translate :
        (fuel : ℕ) (r : Run (State In Out))
        → and_then (translate_run r) (read_loop wrap' fuel)
          ≡ translate_run (and_then r (read_loop wrap fuel))
    and_then-translate fuel (rests t) = read_loop-translate fuel t
    and_then-translate fuel (stops t) = refl
    and_then-translate fuel panics = refl
    and_then-translate fuel starves = refl

    -- A poll commutes with a change of the messages that keeps the bytes.
    pub poll-translate :
        (fuel : ℕ) (s : State In Out)
        → poll payload' wrap' fuel (translate s) ≡ translate_run (poll payload wrap fuel s)
    unfolding poll
    poll-translate fuel s =
        ap (λ r. and_then r (read_loop wrap' fuel)) (write_loop-translate fuel s)
        ∙ and_then-translate fuel (write_loop payload fuel s)

-- What the UDP tunnel's socket is given of a message, and what it gives in place of one.
abbrev pub bytes_of : TunnelMessage → List ℕ
bytes_of m = m.message

abbrev pub forwarded : TunnelMessage → Message.TunnelMessage
forwarded m = Message.forward m.index m.message
