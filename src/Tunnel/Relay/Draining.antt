-- ===== src/Tunnel/Relay/Draining.antt =====
-- A tunnel that is polled again each time it was left pending sends all that its channel holds.
use pocket_relay_client_shar.Prelude.{
  ℕ, zero, suc, ◌+◌, ◌<◌, ◌≤◌, ◌≡◌, refl, sym, ◌∙◌, subst, Bool, true, false, Option, none, some,
  List, [], ◌∷◌, ◌++◌, append-nil, append_assoc, length, All, arith,
}
use pocket_relay_client_shar.Polling.{messages, Poll, pending, ready, Run, rests}
use pocket_relay_client_shar.Tunnel.Codec.{TunnelMessage}
use pocket_relay_client_shar.Tunnel.Relay.{
  TunnelWriteState, recv, write, flush, World, Tunnel, State, poll_write_recv, poll_write_message,
  poll_write_flush, poll_write_state, write_next, write_loop, poll_read_state, read_next, read_loop,
  and_then, poll,
}
use pocket_relay_client_shar.Tunnel.Relay.Sending.{in_flight, IsLive}

-- A poll, and as many more, each of a tunnel that was left pending.
abbrev pub polls : ℕ → ℕ → State → Run State
polls fuel zero s = poll fuel s
polls fuel (suc n) s = and_then (poll fuel s) (polls fuel n)

abbrev pub pendings : {A : Type 0} → List (Poll A) → ℕ
pendings [] = 0
pendings (pending ∷ script) = suc (pendings script)
pendings (ready a ∷ script) = pendings script

abbrev pub readies : {A : Type 0} → List (Poll A) → ℕ
readies [] = 0
readies (pending ∷ script) = readies script
readies (ready a ∷ script) = suc (readies script)

-- The channel stays open, and the connection answers without an error.
abbrev pub IsOpen : Poll (Option TunnelMessage) → Type 0
IsOpen (ready none) = ⊥
IsOpen _ = Unit

abbrev pub IsOk : Poll Bool → Type 0
IsOk (ready false) = ⊥
IsOk _ = Unit

-- How often `io` must say that it is flushed besides once for each message.
abbrev pub flushes : TunnelWriteState → ℕ
flushes flush = 1
flushes _ = 0

-- The tunnel waits for its channel, which is empty, and has sent these messages.
abbrev pub Drains : List TunnelMessage → Run State → Type 0
Drains sent (rests t) = (t.0.write_state ≡ recv) × (t.1.rx ≡ []) × (t.1.sent ≡ sent)
Drains sent _ = ⊥

-- The polls that follow one, and all of them from a round of the first.
abbrev then_polls : ℕ → ℕ → Run State → Run State
then_polls fuel zero r = r
then_polls fuel (suc n) r = and_then r (polls fuel n)

abbrev rounds : ℕ → ℕ → ℕ → State → Run State
rounds f fuel n s = then_polls fuel n (and_then (write_loop f s) (read_loop fuel))

polls-rounds : (fuel n : ℕ) (s : State) → rounds fuel fuel n s ≡ polls fuel n s
unfolding poll
polls-rounds fuel zero s = refl
polls-rounds fuel (suc n) s = refl

-- The connection can take what the tunnel has to send, and the fuel is enough.
record Can (f fuel n : ℕ) (ws : TunnelWriteState) (rx : List (Poll (Option TunnelMessage)))
    (rd fl : List (Poll Bool)) : Type 0 where
  open_rx : All IsOpen rx
  ok_rd : All IsOk rd
  ok_fl : All IsOk fl
  enough_rd : length (in_flight ws) + length (messages rx) ≤ readies rd
  enough_fl : flushes ws + (length (in_flight ws) + length (messages rx)) ≤ readies fl
  enough_n : pendings rx + (pendings rd + pendings fl) ≤ n
  enough_f : length rx + (length rd + length fl) < f
  enough_fuel : length rx + (length rd + length fl) < fuel

idle :
    (fuel n f : ℕ) (self : Tunnel) (w : World) (rd fl : List (Poll Bool))
    (sent : List TunnelMessage)
    → w.sent ≡ sent
    → Drains sent (
        rounds (suc f) (suc fuel) n (
          record self { write_state = recv },
          record w { rx = []; ready = rd; flushed = fl; next = [] },
        ))
unfolding write_loop write_next poll_write_state poll_write_recv read_loop read_next poll_read_state
    poll
idle fuel zero f self w rd fl sent e = (refl, refl, e)
idle fuel (suc zero) f self w rd fl sent e = (refl, refl, e)
idle fuel (suc (suc n)) f self w rd fl sent e = idle fuel (suc n) fuel self w rd fl sent e

abbrev state :
    TunnelWriteState
    → List (Poll (Option TunnelMessage))
    → List (Poll Bool)
    → List (Poll Bool)
    → Tunnel
    → World
    → State
state ws rx rd fl self w =
    (record self { write_state = ws }, record w { rx = rx; ready = rd; flushed = fl; next = [] })

drains :
    (m f fuel n : ℕ) (ws : TunnelWriteState) (rx : List (Poll (Option TunnelMessage)))
    (rd fl : List (Poll Bool)) (self : Tunnel) (w : World) (sent : List TunnelMessage)
    → IsLive ws
    → Can f (suc fuel) n ws rx rd fl
    → length rx + (length rd + length fl) < m
    → w.sent ++ (in_flight ws ++ messages rx) ≡ sent
    → Drains sent (rounds f (suc fuel) n (state ws rx rd fl self w))
unfolding write_loop write_next poll_write_state poll_write_recv poll_write_message poll_write_flush
    read_loop read_next poll_read_state poll
drains zero f fuel n ws rx rd fl self w sent live c le e = absurd (omega (arith, le))
drains (suc m) zero fuel n ws rx rd fl self w sent live c le e = absurd (omega (arith, c.enough_f))
drains (suc m) (suc f) fuel n recv [] rd fl self w sent live c le e =
    idle fuel n f self w rd fl sent (sym (append-nil w.sent) ∙ e)
drains (suc m) (suc f) fuel zero recv (pending ∷ rx) rd fl self w sent live c le e =
    absurd (omega (arith, c.enough_n))
drains (suc m) (suc f) fuel (suc n) recv (pending ∷ rx) rd fl self w sent live c le e =
    subst (Drains sent) (polls-rounds (suc fuel) n (state recv rx rd fl self w)) (
      drains m (suc fuel) fuel n recv rx rd fl self w sent tt (ground (arith, c))
        (omega (arith, le)) e)
drains (suc m) (suc f) fuel n recv (ready none ∷ rx) rd fl self w sent live c le e =
    absurd c.open_rx.0
drains (suc m) (suc f) fuel n recv (ready (some x) ∷ rx) rd fl self w sent live c le e =
    drains m f fuel n (write (some x)) rx rd fl self (record w { taken = w.taken ++ (x ∷ []) }) sent
      tt (ground (arith, c)) (omega (arith, le)) e
drains (suc m) (suc f) fuel n (write none) rx rd fl self w sent live c le e = absurd live
drains (suc m) (suc f) fuel n (write (some x)) rx [] fl self w sent live c le e =
    absurd (omega (arith, c.enough_rd))
drains (suc m) (suc f) fuel zero (write (some x)) rx (pending ∷ rd) fl self w sent live c le e =
    absurd (omega (arith, c.enough_n))
drains (suc m) (suc f) fuel (suc n) (write (some x)) rx (pending ∷ rd) fl self w sent live c le e =
    subst (Drains sent) (polls-rounds (suc fuel) n (state (write (some x)) rx rd fl self w)) (
      drains m (suc fuel) fuel n (write (some x)) rx rd fl self w sent tt (ground (arith, c))
        (omega (arith, le)) e)
drains (suc m) (suc f) fuel n (write (some x)) rx (ready false ∷ rd) fl self w sent live c le e =
    absurd c.ok_rd.0
drains (suc m) (suc f) fuel n (write (some x)) rx (ready true ∷ rd) fl self w sent live c le e =
    let e2 : w.sent ++ ((x ∷ []) ++ messages rx) ≡ sent = e in
    drains m f fuel n flush rx rd fl self (record w { sent = w.sent ++ (x ∷ []) }) sent tt
      (ground (arith, c)) (omega (arith, le)) (append_assoc w.sent (x ∷ []) (messages rx) ∙ e2)
drains (suc m) (suc f) fuel n flush rx rd [] self w sent live c le e =
    absurd (omega (arith, c.enough_fl))
drains (suc m) (suc f) fuel zero flush rx rd (pending ∷ fl) self w sent live c le e =
    absurd (omega (arith, c.enough_n))
drains (suc m) (suc f) fuel (suc n) flush rx rd (pending ∷ fl) self w sent live c le e =
    subst (Drains sent) (polls-rounds (suc fuel) n (state flush rx rd fl self w)) (
      drains m (suc fuel) fuel n flush rx rd fl self w sent tt (ground (arith, c))
        (omega (arith, le)) e)
drains (suc m) (suc f) fuel n flush rx rd (ready false ∷ fl) self w sent live c le e =
    absurd c.ok_fl.0
drains (suc m) (suc f) fuel n flush rx rd (ready true ∷ fl) self w sent live c le e =
    drains m f fuel n recv rx rd fl self w sent tt (ground (arith, c)) (omega (arith, le)) e
drains (suc m) (suc f) fuel n TunnelWriteState.stop rx rd fl self w sent live c le e = absurd live

-- Nothing goes wrong and nothing arrives, and the connection has an answer for each message that the
-- tunnel has to send, to say that it is ready, and that it is flushed.
pub record Willing (s : State) : Type 0 where
  pub live : IsLive s.0.write_state
  pub open_rx : All IsOpen s.1.rx
  pub ok_ready : All IsOk s.1.ready
  pub ok_flushed : All IsOk s.1.flushed
  pub quiet : s.1.next ≡ []
  pub enough_ready :
      length (in_flight s.0.write_state) + length (messages s.1.rx) ≤ readies s.1.ready
  pub enough_flushed :
      flushes s.0.write_state + (length (in_flight s.0.write_state) + length (messages s.1.rx))
      ≤ readies s.1.flushed

-- A tunnel that is polled again as often as it was left pending, and whose connection is ready and
-- flushed often enough, sends the message in its write state and then all those of its channel, in
-- their order, each once; then it waits for the channel. Provided that the channel stays open, the
-- connection neither fails nor gives a message, and the fuel is above the number of stored answers.
pub polls-Drains :
    (fuel n : ℕ) (s : State)
    → Willing s
    → pendings s.1.rx + (pendings s.1.ready + pendings s.1.flushed) ≤ n
    → length s.1.rx + (length s.1.ready + length s.1.flushed) ≤ fuel
    → Drains (s.1.sent ++ (in_flight s.0.write_state ++ messages s.1.rx)) (polls (suc fuel) n s)
polls-Drains fuel n (self, w) h a b =
    let sent = w.sent ++ (in_flight self.write_state ++ messages w.rx) in
    let t = state self.write_state w.rx w.ready w.flushed self w in
    let c : Can (suc fuel) (suc fuel) n self.write_state w.rx w.ready w.flushed = record {
      open_rx = h.open_rx;
      ok_rd = h.ok_ready;
      ok_fl = h.ok_flushed;
      enough_rd = h.enough_ready;
      enough_fl = h.enough_flushed;
      enough_n = a;
      enough_f = omega (arith, b);
      enough_fuel = omega (arith, b);
    } in
    let d : Drains sent (polls (suc fuel) n t) = subst (Drains sent) (polls-rounds (suc fuel) n t) (
      drains (suc fuel) (suc fuel) fuel n self.write_state w.rx w.ready w.flushed self w sent h.live
        c (omega (arith, b)) refl) in
    subst (λ l. Drains sent (polls (suc fuel) n (self, record w { next = l }))) (sym h.quiet) d
