-- ===== src/UdpTunnel/Relay/PendingSend.antt =====
-- What becomes of a UDP tunnel whose socket said that it is ready, and then was not.
use pocket_relay_client_shar.Prelude.{
  ℕ, zero, suc, ◌+◌, ◌≡◌, refl, ap, ◌∙◌, Bool, Bool-cases, inl, inr, true, false, none, some, List,
  [], ◌∷◌, arith,
}
use pocket_relay_client_shar.Polling.{later, Poll, pending, ready, rests, panics}
use pocket_relay_client_shar.UdpTunnel.Message.{TunnelMessage, Protocol}
use pocket_relay_client_shar.UdpTunnel.Relay.{
  write, World, Tunnel, State, first_or, poll_write_state, poll_receive, read_next, write_next,
  read_loop, write_loop, poll,
}
use pocket_relay_client_shar.UdpTunnel.Relay.KeepAlive.{
  IsTimely, checked, poll_read_state_no_timeout,
}

-- As many times `Pending`, and then the rest.
abbrev pub waits : ℕ → List (Poll Bool) → List (Poll Bool)
waits zero readies = readies
waits (suc n) readies = pending ∷ waits n readies

-- From one world to a later one no message was taken and none was sent, and nothing is to be read.
record Idle (self : Tunnel) (w v : World) : Type 0 where
  ready_eq : v.send_ready ≡ w.send_ready
  recv_eq : v.recv_ready ≡ []
  sent_eq : v.sent ≡ w.sent
  taken_eq : v.taken ≡ w.taken
  timely : IsTimely (self, v)

module _ (protocol : Protocol) where
  -- This many polls leave the tunnel pending and send and take no message, and the next one panics.
  abbrev pub Doomed : ℕ → ℕ → State → Type 0
  Doomed fuel zero s = poll protocol fuel s ≡ panics
  Doomed fuel (suc n) s =
      (t : State) × (poll protocol fuel s ≡ rests t)
      × (t.1.sent ≡ s.1.sent)
      × (t.1.taken ≡ s.1.taken)
      × Doomed fuel n t

  read_rests :
      (fuel : ℕ) (self : Tunnel) (w : World)
      → IsTimely (self, w)
      → (v : World) × (read_loop protocol (suc fuel) (self, record w { recv_ready = [] })
          ≡ rests (self, v))
        × Idle self w v
  unfolding read_loop poll_receive read_next
  read_rests fuel self w h =
      let s : State = (self, record w { recv_ready = [] }) in
      let e : read_loop protocol (suc fuel) s
          ≡ read_next (read_loop protocol fuel) (poll_receive protocol (self, checked s.1)) =
        ap (read_next (read_loop protocol fuel)) (poll_read_state_no_timeout protocol self s.1 h) in
      elim (Bool-cases (first_or false w.ticks)) [
        | inl tick ↦ (
          record w {
            recv_ready = [];
            ticks = later w.ticks;
            now = w.now + first_or 0 w.elapse;
            elapse = later w.elapse;
          },
          e ∙ rw tick,
          record {
            ready_eq = refl;
            recv_eq = refl;
            sent_eq = refl;
            taken_eq = refl;
            timely = omega (arith, h);
          },
        )
        | inr idle ↦ (
          record w { recv_ready = []; ticks = later w.ticks },
          e ∙ rw idle,
          record { ready_eq = refl; recv_eq = refl; sent_eq = refl; taken_eq = refl; timely = h },
        )
      ]

  -- With no message in the write state, the tunnel waits for the socket until it panics.
  waits-Doomed :
      (fuel n : ℕ) (self : Tunnel) (w : World) (readies : List (Poll Bool))
      → IsTimely (self, w)
      → w.send_ready ≡ waits n (ready true ∷ readies)
      → w.recv_ready ≡ []
      → Doomed (suc fuel) n (record self { write_state = write none }, w)
  unfolding poll write_loop write_next poll_write_state
  waits-Doomed fuel zero self w readies h e r =
      let same : poll protocol (suc fuel) (record self { write_state = write none }, w)
          ≡ poll protocol (suc fuel) (
            record self { write_state = write none },
            record w { send_ready = ready true ∷ readies },
          ) =
        ap
          (λ l.
            poll protocol (suc fuel)
              (record self { write_state = write none }, record w { send_ready = l }))
          e in
      same ∙ refl
  waits-Doomed fuel (suc n) self w readies h e r =
      let t : Tunnel = record self { write_state = write none } in
      let more = waits n (ready true ∷ readies) in
      let (v, rested, idle) = read_rests fuel t (record w { send_ready = more }) h in
      let same : poll protocol (suc fuel) (t, w)
          ≡ poll protocol (suc fuel)
              (t, record w { send_ready = pending ∷ more; recv_ready = [] }) =
        ap (λ l. poll protocol (suc fuel) (t, record w { send_ready = l })) e
        ∙ ap
            (λ l.
              poll protocol (suc fuel)
                (t, record w { send_ready = pending ∷ more; recv_ready = l }))
            r in
      (
        (t, v),
        same ∙ rested,
        idle.sent_eq,
        idle.taken_eq,
        waits-Doomed fuel n self v readies idle.timely idle.ready_eq idle.recv_eq,
      )

  -- A message that was taken for sending is lost when the socket, which had said that it is ready, is not
  -- ready for it after all; and where the server sends nothing, the tunnel never sends or takes another
  -- message: each poll leaves it pending until the socket says again that it is ready, however often that
  -- is not so, and the poll at which it is so panics.
  pub poll_pending_send-Doomed :
      (fuel n : ℕ) (self : Tunnel) (w : World) (m : TunnelMessage)
      (readies sends : List (Poll Bool))
      → IsTimely (self, w)
      → Doomed (suc fuel) (suc n) (
        record self { write_state = write (some m) },
        record w {
          send_ready = ready true ∷ waits n (ready true ∷ readies);
          send = pending ∷ sends;
          recv_ready = [];
        },
      )
  unfolding poll write_loop write_next poll_write_state
  poll_pending_send-Doomed fuel n self w m readies sends h =
      let t : Tunnel = record self { write_state = write none } in
      let more = waits n (ready true ∷ readies) in
      let (v, rested, idle) = read_rests fuel t (record w { send_ready = more; send = sends }) h in
      (
        (t, v),
        rested,
        idle.sent_eq,
        idle.taken_eq,
        waits-Doomed fuel n self v readies idle.timely idle.ready_eq idle.recv_eq,
      )
