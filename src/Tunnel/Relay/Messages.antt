-- ===== src/Tunnel/Relay/Messages.antt =====
-- Where one poll of the read state delivers what arrives from the server.
use pocket_relay_client_shar.Prelude.{
  ℕ, suc, ◌<◌, ◌≡◌, refl, sym, ap, Bool-cases, inl, inr, false, Option-cases, none, some, List, [],
  ◌∷◌, ◌++◌, append-nil, ◌==◌, if◌then◌else◌, length, get_elem?, Outcome, ok, panic, ◌>>=◌, arith,
}
use pocket_relay_client_shar.Polling.{Poll, pending, ready}
use pocket_relay_client_shar.Tunnel.Codec.{TunnelMessage}
use pocket_relay_client_shar.Tunnel.Relay.{
  TunnelWriteState, TunnelReadState, recv, write, flush, continue, Next, item, failed, closed,
  World, Tunnel, State, ping, poll_write_state, set_write_state, after_write, reply_ping, deliver,
  poll_read_state,
}
use pocket_relay_client_shar.Tunnel.Relay.Progress.{Same, Wrote, write_Wrote, Same-refl, Same-set}

-- The deliveries that arriving messages are meant to cause: to the handle at the message's index in
-- the pool, and none for a keep-alive or an index that the pool does not have.
abbrev pub route_message : List ℕ → TunnelMessage → List (ℕ × TunnelMessage)
route_message pool m =
    if m.index == 255
    then []
    else elim (get_elem? pool m.index) [ none ↦ [] | some handle ↦ (handle, m) ∷ [] ]

abbrev pub route : List ℕ → List (Poll Next) → List (ℕ × TunnelMessage)
route pool [] = []
route pool (ready (item m) ∷ script) = route_message pool m ++ route pool script
route pool (_ ∷ script) = route pool script

-- From one state to a later one, the messages of a prefix of what the connection answers were routed.
pub record Routed (s t : State) : Type 0 where
  pub consumed : List (Poll Next)
  pub next_eq : s.1.next ≡ consumed ++ t.1.next
  pub delivered_eq : t.1.delivered ≡ s.1.delivered ++ route s.0.pool consumed
  pub pool_eq : t.0.pool ≡ s.0.pool

-- A poll of the read half leaves the pool alone and routes the answer that it read.
abbrev pub ReadRouted : State → Outcome (Poll TunnelReadState × State) → Type 0
ReadRouted s panic = Unit {0}
ReadRouted s (ok (pending, t)) = Routed s t
ReadRouted s (ok (ready TunnelReadState.stop, t)) = Routed s t
ReadRouted s (ok (ready continue, t)) = Routed s t × (length t.1.next < length s.1.next)

-- The same, from the state `s` in which the answer has been taken off.
abbrev ReadSame : State → Outcome (Poll TunnelReadState × State) → Type 0
ReadSame s panic = Unit {0}
ReadSame s (ok (p, t)) = Same s t

after_write-ReadSame :
    (s : State) (r : Outcome (Poll TunnelWriteState × State))
    → Wrote s r
    → ReadSame s (r >>= after_write)
after_write-ReadSame s panic v = v
after_write-ReadSame s (ok (pending, t)) v = v
after_write-ReadSame s (ok (ready TunnelWriteState.stop, t)) v =
    Same-set s t TunnelWriteState.stop v.0
after_write-ReadSame s (ok (ready recv, t)) v = Same-set s t recv v.0
after_write-ReadSame s (ok (ready flush, t)) v = Same-set s t flush v.0
after_write-ReadSame s (ok (ready (write m), t)) v = Same-set s t (write m) v.0

reply_ping-ReadSame :
    (ws : TunnelWriteState) (self : Tunnel) (w : World)
    → ReadSame
        (record self { write_state = ws }, w)
        (reply_ping (record self { write_state = ws }, w))
unfolding reply_ping
reply_ping-ReadSame recv self w =
    let s = set_write_state (write (some ping)) (self, w) in
    let r = after_write-ReadSame s (poll_write_state s) (write_Wrote (write (some ping)) self w) in
    relabel (poll_write_state s >>= after_write) r
  where
    relabel :
        (r : Outcome (Poll TunnelReadState × State))
        → ReadSame (set_write_state (write (some ping)) (self, w)) r
        → ReadSame (record self { write_state = recv }, w) r
    relabel panic v = v
    relabel (ok (p, t)) v = record {
      next_eq = v.next_eq;
      delivered_eq = v.delivered_eq;
      pool_eq = v.pool_eq;
    }
reply_ping-ReadSame (write m) self w = Same-refl (record self { write_state = write m }, w)
reply_ping-ReadSame flush self w = Same-refl (record self { write_state = flush }, w)
reply_ping-ReadSame TunnelWriteState.stop self w =
    Same-refl (record self { write_state = TunnelWriteState.stop }, w)

-- After an answer that causes no delivery, what leaves the deliveries alone has routed it.
quiet :
    (self : Tunnel) (w : World) (p : Poll Next) (script : List (Poll Next)) (t : State)
    → route self.pool (p ∷ []) ≡ []
    → Same (self, record w { next = script }) t
    → Routed (self, record w { next = p ∷ script }) t
quiet self w p script t e v = record {
  consumed = p ∷ [];
  next_eq = ap (◌∷◌ p) (sym v.next_eq);
  delivered_eq = rw (e, append-nil w.delivered) v.delivered_eq;
  pool_eq = v.pool_eq;
}

quiet_read :
    (self : Tunnel) (w : World) (p : Poll Next) (script : List (Poll Next))
    (r : Outcome (Poll TunnelReadState × State))
    → route self.pool (p ∷ []) ≡ []
    → ReadSame (self, record w { next = script }) r
    → ReadRouted (self, record w { next = p ∷ script }) r
quiet_read self w p script panic e v = tt
quiet_read self w p script (ok (pending, t)) e v = quiet self w p script t e v
quiet_read self w p script (ok (ready TunnelReadState.stop, t)) e v = quiet self w p script t e v
quiet_read self w p script (ok (ready continue, t)) e v =
    (quiet self w p script t e v, omega (arith, ap length v.next_eq))

deliver-Routed :
    (self : Tunnel) (w : World) (m : TunnelMessage) (script : List (Poll Next))
    → (m.index == 255) ≡ false
    → let t = deliver m (self, record w { next = script }) in
      Routed (self, record w { next = ready (item m) ∷ script }) t
      × (length t.1.next < suc (length script))
unfolding deliver
deliver-Routed self w m script e = elim (Option-cases (get_elem? self.pool m.index)) [
  | inl absent ↦
      rw (deliver, absent)
        (
          record {
            consumed = ready (item m) ∷ [];
            next_eq = refl;
            delivered_eq = rw (e, absent) (sym (append-nil w.delivered));
            pool_eq = refl;
          },
          omega arith,
        )
  | inr (handle, present) ↦
      rw (deliver, present)
        (
          record {
            consumed = ready (item m) ∷ [];
            next_eq = refl;
            delivered_eq = rw (e, present);
            pool_eq = refl;
          },
          omega arith,
        )
]

pub read_step :
    (self : Tunnel) (w : World) (script : List (Poll Next))
    → ReadRouted
        (self, record w { next = script })
        (poll_read_state (self, record w { next = script }))
unfolding poll_read_state
read_step self w [] = record {
  consumed = [];
  next_eq = refl;
  delivered_eq = sym (append-nil w.delivered);
  pool_eq = refl;
}
read_step self w (pending ∷ script) =
    quiet self w pending script (self, record w { next = script }) refl (Same-refl _)
read_step self w (ready failed ∷ script) =
    quiet self w (ready failed) script (self, record w { next = script }) refl (Same-refl _)
read_step self w (ready closed ∷ script) =
    quiet self w (ready closed) script (self, record w { next = script }) refl (Same-refl _)
read_step self w (ready (item m) ∷ script) = elim (Bool-cases (m.index == 255)) [
  | inl e ↦
      rw (poll_read_state, e)
        (quiet_read self w (ready (item m)) script (reply_ping (self, record w { next = script }))
          (rw e) (reply_ping-ReadSame self.write_state self (record w { next = script })))
  | inr e ↦ rw (poll_read_state, e) (deliver-Routed self w m script e)
]
