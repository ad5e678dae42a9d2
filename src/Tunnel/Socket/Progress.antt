-- ===== src/Tunnel/Socket/Progress.antt =====
-- The write half of a socket comes to an end and gives the tunnel nothing.

use pocket_relay_client_shar.Prelude.{
  ℕ, zero, suc, ◌+◌, ◌<◌, ◌≡◌, Bool-cases, inl, inr, Option, none, some, List, [], ◌∷◌, ltb, ◌==◌,
  length, Outcome, ok, panic, arith,
}
use pocket_relay_client_shar.Polling.{Poll, pending, ready, Run, rests, stops, panics, starves}
use pocket_relay_client_shar.Tunnel.Socket.{
  SocketWriteState, recv, write, World, Socket, State, min_of, set_write_state, write_next,
  poll_write_message, poll_write_recv, poll_write_state, write_loop,
}

module _ {In Out : Type 0} where
  -- What can be written still: the answers that the channel and the socket have in store.
  abbrev pub write_work : World In Out → ℕ
  write_work w = length w.rx + length w.send

  pub record Same (s t : State In Out) : Type 0 where
    pub recv_eq : t.1.recv ≡ s.1.recv
    pub given_eq : t.1.given ≡ s.1.given
    pub index_eq : t.0.index ≡ s.0.index

  abbrev Wrote : State In Out → Outcome (Poll SocketWriteState × State In Out) → Type 0
  Wrote s panic = Unit {0}
  Wrote s (ok (pending, t)) = Same s t
  Wrote s (ok (ready next, t)) = Same s t × (write_work t.1 < write_work s.1)

  Same-trans : (s t u : State In Out) → Same s t → Same t u → Same s u
  Same-trans s t u a b = ground arith

  Same-set :
      (s t : State In Out) (next : SocketWriteState) → Same s t → Same s (set_write_state next t)
  Same-set s t next a = ground arith

  message_Wrote :
      (m : List ℕ) (self : Socket) (w : World In Out) (script : List (Poll (Option ℕ)))
      → Wrote
          (self, record w { send = script })
          (poll_write_message m (self, record w { send = script }))
  unfolding poll_write_message
  message_Wrote m self w [] = ground arith
  message_Wrote m self w (pending ∷ script) = ground arith
  message_Wrote m self w (ready none ∷ script) = ground arith
  message_Wrote m self w (ready (some n) ∷ script) =
      let count = min_of n (length m) in
      elim (Bool-cases (count == length m)) [
        | inl whole ↦ rw (poll_write_message, whole) (ground arith)
        | inr part ↦ elim (Bool-cases (ltb (length m) count)) [
          | inl over ↦ rw (poll_write_message, part, over) tt
          | inr fits ↦ rw (poll_write_message, part, fits) (ground arith)
        ]
      ]

  abbrev pub WriteEnds : State In Out → Run (State In Out) → Type 0
  WriteEnds s (rests t) = Same s t
  WriteEnds s (stops t) = Same s t
  WriteEnds s panics = Unit {0}
  WriteEnds s starves = ⊥

  WriteEnds-trans :
      (s t : State In Out) (r : Run (State In Out)) → Same s t → WriteEnds t r → WriteEnds s r
  WriteEnds-trans s t (rests u) a b = Same-trans s t u a b
  WriteEnds-trans s t (stops u) a b = Same-trans s t u a b
  WriteEnds-trans s t panics a b = tt
  WriteEnds-trans s t starves a b = b

  write_next-WriteEnds :
      (fuel : ℕ) (rounds : State In Out → Run (State In Out)) (s : State In Out)
      → ((t : State In Out) → write_work t.1 < fuel → WriteEnds t (rounds t))
      → (r : Outcome (Poll SocketWriteState × State In Out)) → write_work s.1 < suc fuel
      → Wrote s r
      → WriteEnds s (write_next rounds r)
  unfolding write_next
  write_next-WriteEnds fuel rounds s h panic e v = tt
  write_next-WriteEnds fuel rounds s h (ok (pending, t)) e v = v
  write_next-WriteEnds fuel rounds s h (ok (ready SocketWriteState.stop, t)) e v =
      Same-set s t SocketWriteState.stop v.0
  write_next-WriteEnds fuel rounds s h (ok (ready recv, t)) e v =
      WriteEnds-trans s (set_write_state recv t) (rounds (set_write_state recv t))
        (Same-set s t recv v.0) (h (set_write_state recv t) (omega (arith, v.1)))
  write_next-WriteEnds fuel rounds s h (ok (ready (write m), t)) e v =
      WriteEnds-trans s (set_write_state (write m) t) (rounds (set_write_state (write m) t))
        (Same-set s t (write m) v.0) (h (set_write_state (write m) t) (omega (arith, v.1)))

module _ {In Out : Type 0} (payload : In → List ℕ) where
  recv_Wrote :
      (self : Socket) (w : World In Out) (rx : List (Poll (Option In)))
      → Wrote (self, record w { rx = rx }) (poll_write_recv payload (self, record w { rx = rx }))
  unfolding poll_write_recv
  recv_Wrote self w [] = ground arith
  recv_Wrote self w (pending ∷ rx) = ground arith
  recv_Wrote self w (ready none ∷ rx) = ground arith
  recv_Wrote self w (ready (some m) ∷ rx) = ground arith

  write_Wrote :
      (ws : SocketWriteState) (self : Socket) (w : World In Out)
      → Wrote
          (record self { write_state = ws }, w)
          (poll_write_state payload (record self { write_state = ws }, w))
  unfolding poll_write_state
  write_Wrote recv self w = recv_Wrote (record self { write_state = recv }) w w.rx
  write_Wrote (write m) self w = message_Wrote m (record self { write_state = write m }) w w.send
  write_Wrote SocketWriteState.stop self w = tt

  pub write_loop-WriteEnds :
      (fuel : ℕ) (s : State In Out)
      → write_work s.1 < fuel
      → WriteEnds s (write_loop payload fuel s)
  unfolding write_loop
  write_loop-WriteEnds zero s h = absurd (omega arith)
  write_loop-WriteEnds (suc fuel) s h =
      write_next-WriteEnds fuel (write_loop payload fuel) s (write_loop-WriteEnds fuel)
        (poll_write_state payload s) h (write_Wrote s.0.write_state s.0 s.1)
