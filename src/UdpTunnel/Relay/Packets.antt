-- ===== src/UdpTunnel/Relay/Packets.antt =====
-- Where one poll of the read state of the UDP tunnel delivers what arrives.
use pocket_relay_client_shar.Prelude.{
  ℕ, ◌+◌, ◌-◌, ◌≡◌, refl, sym, ap, ◌∙◌, Bool, Bool-cases, inl, inr, true, false, Option,
  Option-cases, none, some, List, [], ◌∷◌, append-nil, length, get_elem?, Outcome, ok, panic, ◌>>=◌,
  arith, ltb,
}
use pocket_relay_client_shar.Polling.{Poll, pending, ready}
use pocket_relay_client_shar.UdpTunnel.Message.{
  TunnelMessage, initiate, initiated, forward, keep_alive, Protocol,
}
use pocket_relay_client_shar.UdpTunnel.Relay.{
  TunnelWriteState, TunnelReadState, recv, write, continue, World, Tunnel, State, after_write,
  first_or, instant_now, poll_tick, poll_write_state, reply_keep_alive, on_message, deliver,
  poll_receive, poll_read_state, keep_alive_timeout,
}
use pocket_relay_client_shar.UdpTunnel.Relay.Progress.{
  Same, Wrote, Same-set, Same-trans, write_Wrote,
}
use pocket_relay_client_shar.UdpTunnel.Relay.Route.{
  route_message, route, Routed, ReadRouted, Same-Routed,
}

module _ (protocol : Protocol) where
  open protocol use {deserialize_message}

  abbrev ReadSame : State → Outcome (Poll TunnelReadState × State) → Type 0
  ReadSame s panic = Unit {0}
  ReadSame s (ok (p, t)) = Same s t

  after_write-ReadSame :
      (s u : State) (r : Outcome (Poll TunnelWriteState × State))
      → Same s u
      → Wrote u r
      → ReadSame s (r >>= after_write)
  after_write-ReadSame s u panic e v = tt
  after_write-ReadSame s u (ok (pending, t)) e v = Same-trans s u t e v
  after_write-ReadSame s u (ok (ready TunnelWriteState.stop, t)) e v =
      Same-set s t TunnelWriteState.stop (Same-trans s u t e v.0)
  after_write-ReadSame s u (ok (ready recv, t)) e v = Same-set s t recv (Same-trans s u t e v.0)
  after_write-ReadSame s u (ok (ready (write m), t)) e v =
      Same-set s t (write m) (Same-trans s u t e v.0)

  reply_keep_alive-ReadSame : (s : State) → ReadSame s (reply_keep_alive protocol s)
  unfolding reply_keep_alive
  reply_keep_alive-ReadSame (self, w) =
      let w' = (instant_now w).1 in
      let self' : Tunnel = record self { last_keep_alive = w'.now } in
      let t : State = (record self' { write_state = write (some keep_alive) }, w') in
      after_write-ReadSame (self, w) t (poll_write_state protocol t) (ground arith)
        (write_Wrote protocol (write (some keep_alive)) self' w')

  -- After a datagram that causes no delivery, what leaves the deliveries alone has routed it.
  quiet :
      (self : Tunnel) (w : World) (p : Poll (Option (List ℕ)))
      (script : List (Poll (Option (List ℕ)))) (t : State)
      → route protocol self.pool (p ∷ []) ≡ []
      → Same (self, record w { recv = script }) t
      → Routed protocol (self, record w { recv = p ∷ script }) t
  quiet self w p script t e v = record {
    consumed = p ∷ [];
    recv_eq = ap (◌∷◌ p) (sym v.recv_eq);
    delivered_eq = rw (e, append-nil w.delivered) v.delivered_eq;
    pool_eq = v.pool_eq;
  }

  quiet_read :
      (self : Tunnel) (w : World) (p : Poll (Option (List ℕ)))
      (script : List (Poll (Option (List ℕ)))) (r : Outcome (Poll TunnelReadState × State))
      → route protocol self.pool (p ∷ []) ≡ []
      → ReadSame (self, record w { recv = script }) r
      → ReadRouted protocol (self, record w { recv = p ∷ script }) r
  quiet_read self w p script panic e v = tt
  quiet_read self w p script (ok (pending, t)) e v = quiet self w p script t e v
  quiet_read self w p script (ok (ready TunnelReadState.stop, t)) e v = quiet self w p script t e v
  quiet_read self w p script (ok (ready continue, t)) e v =
      (quiet self w p script t e v, omega (arith, ap length v.recv_eq))

  forward-Routed :
      (self : Tunnel) (w : World) (index : ℕ) (m buffer : List ℕ)
      (script : List (Poll (Option (List ℕ))))
      → deserialize_message buffer ≡ some (forward index m)
      → ReadRouted protocol
          (self, record w { recv = ready (some buffer) ∷ script })
          (ok (ready continue, deliver index m (self, record w { recv = script })))
  unfolding deliver
  forward-Routed self w index m buffer script e = elim (Option-cases (get_elem? self.pool index)) [
    | inl absent ↦
        rw (deliver, absent)
          (
            record {
              consumed = ready (some buffer) ∷ [];
              recv_eq = refl;
              delivered_eq = rw (e, route_message, absent) (sym (append-nil w.delivered));
              pool_eq = refl;
            },
            omega arith,
          )
    | inr (handle, present) ↦
        rw (deliver, present)
          (
            record {
              consumed = ready (some buffer) ∷ [];
              recv_eq = refl;
              delivered_eq = rw (e, route_message, present);
              pool_eq = refl;
            },
            omega arith,
          )
  ]

  on_message-ReadRouted :
      (m : TunnelMessage) (self : Tunnel) (w : World) (buffer : List ℕ)
      (script : List (Poll (Option (List ℕ))))
      → deserialize_message buffer ≡ some m
      → ReadRouted protocol
          (self, record w { recv = ready (some buffer) ∷ script })
          (on_message protocol m (self, record w { recv = script }))
  unfolding on_message
  on_message-ReadRouted (forward index m) self w buffer script e =
      forward-Routed self w index m buffer script e
  on_message-ReadRouted keep_alive self w buffer script e =
      quiet_read self w (ready (some buffer)) script
        (reply_keep_alive protocol (self, record w { recv = script })) (rw e)
        (reply_keep_alive-ReadSame (self, record w { recv = script }))
  on_message-ReadRouted (initiate token) self w buffer script e =
      quiet_read self w (ready (some buffer)) script
        (ok (ready continue, (self, record w { recv = script }))) (rw e) (ground arith)
  on_message-ReadRouted (initiated id) self w buffer script e =
      quiet_read self w (ready (some buffer)) script
        (ok (ready continue, (self, record w { recv = script }))) (rw e) (ground arith)

  Routed-relabel : (s s' t : State) → Same s s' → Routed protocol s t → Routed protocol s' t
  Routed-relabel s s' t e v = record {
    consumed = v.consumed;
    recv_eq = e.recv_eq ∙ v.recv_eq;
    delivered_eq = rw (e.delivered_eq, e.pool_eq) v.delivered_eq;
    pool_eq = v.pool_eq ∙ sym e.pool_eq;
  }

  relabel :
      (s s' : State) (r : Outcome (Poll TunnelReadState × State))
      → Same s s'
      → ReadRouted protocol s r
      → ReadRouted protocol s' r
  relabel s s' panic e v = tt
  relabel s s' (ok (pending, t)) e v = Routed-relabel s s' t e v
  relabel s s' (ok (ready TunnelReadState.stop, t)) e v = Routed-relabel s s' t e v
  relabel s s' (ok (ready continue, t)) e v =
      (Routed-relabel s s' t e v.0, omega (arith, v.1, ap length e.recv_eq))

  receive_step :
      (self : Tunnel) (w : World) (readies : List (Poll Bool))
      (script : List (Poll (Option (List ℕ))))
      → ReadRouted protocol
          (self, record w { recv = script })
          (poll_receive protocol (self, record w { recv_ready = readies; recv = script }))
  unfolding poll_receive
  receive_step self w [] script = Same-Routed protocol _ _ (ground arith)
  receive_step self w (pending ∷ readies) script = Same-Routed protocol _ _ (ground arith)
  receive_step self w (ready false ∷ readies) script = Same-Routed protocol _ _ (ground arith)
  receive_step self w (ready true ∷ readies) [] = Same-Routed protocol _ _ (ground arith)
  receive_step self w (ready true ∷ readies) (pending ∷ script) =
      quiet self w pending script _ refl (ground arith)
  receive_step self w (ready true ∷ readies) (ready none ∷ script) =
      quiet self w (ready none) script _ refl (ground arith)
  receive_step self w (ready true ∷ readies) (ready (some buffer) ∷ script) =
      elim (Option-cases (deserialize_message buffer)) [
        | inl e ↦
            rw (poll_receive, e) (quiet self w (ready (some buffer)) script _ (rw e) (ground arith))
        | inr (m, e) ↦
            rw (poll_receive, e)
              (relabel
                (self, record w { recv_ready = readies; recv = ready (some buffer) ∷ script }) _
                (on_message protocol m (self, record w { recv_ready = readies; recv = script }))
                (ground arith)
                (on_message-ReadRouted m self (record w { recv_ready = readies }) buffer script e))
      ]

  pub read_step : (s : State) → ReadRouted protocol s (poll_read_state protocol s)
  unfolding poll_read_state
  read_step (self, w) = elim (Bool-cases (first_or false w.ticks)) [
    | inr idle ↦ rw (poll_read_state, idle) (from (poll_tick w).1 (ground arith))
    | inl tick ↦
        elim (Bool-cases
          (ltb keep_alive_timeout (self.last_keep_alive - (w.now + first_or 0 w.elapse)))) [
            | inl late ↦ rw (poll_read_state, tick, late) (Same-Routed protocol _ _ (ground arith))
            | inr alive ↦
                rw (poll_read_state, tick, alive)
                  (from (instant_now (poll_tick w).1).1 (ground arith))
          ]
  ]
    where
      from :
          (v : World)
          → Same (self, v) (self, w)
          → ReadRouted protocol (self, w) (poll_receive protocol (self, v))
      from v e =
          relabel (self, v) (self, w) (poll_receive protocol (self, v)) e
            (receive_step self v v.recv_ready v.recv)
