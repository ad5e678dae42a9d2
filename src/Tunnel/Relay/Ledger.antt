-- ===== src/Tunnel/Relay/Ledger.antt =====
-- What the tunnel sends against what it takes from its channel, over a whole `poll`.
use pocket_relay_client_shar.Prelude.{
  ℕ, zero, suc, ◌≤◌, Bool-cases, inl, inr, none, some, List, [], ◌∷◌, ◌==◌, length, Outcome, ok,
  panic, ◌>>=◌, arith,
}
use pocket_relay_client_shar.Polling.{Poll, pending, ready, Run, rests, stops, panics, starves}
use pocket_relay_client_shar.Tunnel.Codec.{TunnelMessage}
use pocket_relay_client_shar.Tunnel.Relay.{
  TunnelWriteState, TunnelReadState, recv, write, flush, continue, Next, item, failed, closed,
  World, Tunnel, State, ping, poll_write_state, after_write, reply_ping, deliver, poll_read_state,
  write_next, read_next, and_then, write_loop, read_loop, poll,
}
use pocket_relay_client_shar.Tunnel.Relay.Sending.{
  data_of, in_flight, Inv, Lost, AfterWrite, data_of-le, write_step,
}

-- How a poll may end: not by a panic.
abbrev pub Ends : Run State → Type 0
Ends (rests s) = Inv s
Ends (stops s) = Lost s
Ends panics = ⊥
Ends starves = Unit {0}

write_next-Ends :
    (rounds : State → Run State)
    → ((s : State) → Inv s → Ends (rounds s))
    → (r : Outcome (Poll TunnelWriteState × State)) → AfterWrite r
    → Ends (write_next rounds r)
unfolding write_next
write_next-Ends rounds h panic v = v
write_next-Ends rounds h (ok (pending, s)) v = v
write_next-Ends rounds h (ok (ready TunnelWriteState.stop, s)) v = record {
  lost = v.lost;
  at_most_one = v.at_most_one;
  ledger = v.ledger;
}
write_next-Ends rounds h (ok (ready recv, s)) v = h _ v
write_next-Ends rounds h (ok (ready flush, s)) v = h _ v
write_next-Ends rounds h (ok (ready (write m), s)) v = h _ v

write_loop-Ends : (fuel : ℕ) (s : State) → Inv s → Ends (write_loop fuel s)
unfolding write_loop
write_loop-Ends zero s v = tt
write_loop-Ends (suc fuel) s v =
    write_next-Ends (write_loop fuel) (write_loop-Ends fuel) (poll_write_state s)
      (write_step s.0.write_state s.0 s.1 v)

abbrev AfterRead : Outcome (Poll TunnelReadState × State) → Type 0
AfterRead panic = ⊥
AfterRead (ok (pending, s)) = Inv s
AfterRead (ok (ready TunnelReadState.stop, s)) = Lost s
AfterRead (ok (ready continue, s)) = Inv s

after_write-AfterRead :
    (r : Outcome (Poll TunnelWriteState × State)) → AfterWrite r → AfterRead (r >>= after_write)
after_write-AfterRead panic v = v
after_write-AfterRead (ok (pending, s)) v = v
after_write-AfterRead (ok (ready TunnelWriteState.stop, s)) v = record {
  lost = v.lost;
  at_most_one = v.at_most_one;
  ledger = v.ledger;
}
after_write-AfterRead (ok (ready recv, s)) v = v
after_write-AfterRead (ok (ready flush, s)) v = v
after_write-AfterRead (ok (ready (write m), s)) v = v

reply_ping-AfterRead :
    (ws : TunnelWriteState) (self : Tunnel) (w : World)
    → Inv (record self { write_state = ws }, w)
    → AfterRead (reply_ping (record self { write_state = ws }, w))
unfolding reply_ping
reply_ping-AfterRead recv self w v =
    after_write-AfterRead (poll_write_state (record self { write_state = write (some ping) }, w))
      (write_step (write (some ping)) self w (record { live = tt; ledger = v.ledger }))
reply_ping-AfterRead (write m) self w v = v
reply_ping-AfterRead flush self w v = v
reply_ping-AfterRead TunnelWriteState.stop self w v = v

deliver-Inv : (m : TunnelMessage) (s : State) → Inv s → Inv (deliver m s)
unfolding deliver
deliver-Inv m s v = ground arith

in_flight-le : (ws : TunnelWriteState) → length (in_flight ws) ≤ 1
in_flight-le recv = omega arith
in_flight-le (write none) = omega arith
in_flight-le (write (some m)) = omega arith
in_flight-le flush = omega arith
in_flight-le TunnelWriteState.stop = omega arith

stopped : (s : State) → Inv s → Lost s
stopped s v = record {
  lost = data_of (in_flight s.0.write_state);
  at_most_one = omega (arith, in_flight-le s.0.write_state, data_of-le (in_flight s.0.write_state));
  ledger = v.ledger;
}

read_step :
    (self : Tunnel) (w : World) (script : List (Poll Next))
    → Inv (self, record w { next = script })
    → AfterRead (poll_read_state (self, record w { next = script }))
unfolding poll_read_state
read_step self w [] v = record { live = v.live; ledger = v.ledger }
read_step self w (pending ∷ script) v = record { live = v.live; ledger = v.ledger }
read_step self w (ready failed ∷ script) v =
    stopped (self, record w { next = script }) (record { live = v.live; ledger = v.ledger })
read_step self w (ready closed ∷ script) v =
    stopped (self, record w { next = script }) (record { live = v.live; ledger = v.ledger })
read_step self w (ready (item m) ∷ script) v = elim (Bool-cases (m.index == 255)) [
  | inl e ↦
      rw (poll_read_state, e)
        (reply_ping-AfterRead self.write_state self (record w { next = script })
          (record { live = v.live; ledger = v.ledger }))
  | inr e ↦
      rw (poll_read_state, e)
        (deliver-Inv m (self, record w { next = script })
          (record { live = v.live; ledger = v.ledger }))
]

read_next-Ends :
    (rounds : State → Run State)
    → ((s : State) → Inv s → Ends (rounds s))
    → (r : Outcome (Poll TunnelReadState × State)) → AfterRead r
    → Ends (read_next rounds r)
unfolding read_next
read_next-Ends rounds h panic v = v
read_next-Ends rounds h (ok (pending, s)) v = v
read_next-Ends rounds h (ok (ready TunnelReadState.stop, s)) v = v
read_next-Ends rounds h (ok (ready continue, s)) v = h s v

read_loop-Ends : (fuel : ℕ) (s : State) → Inv s → Ends (read_loop fuel s)
unfolding read_loop
read_loop-Ends zero s v = tt
read_loop-Ends (suc fuel) s v =
    read_next-Ends (read_loop fuel) (read_loop-Ends fuel) (poll_read_state s)
      (read_step s.0 s.1 s.1.next v)

and_then-Ends :
    (r : Run State) (k : State → Run State)
    → Ends r
    → ((s : State) → Inv s → Ends (k s))
    → Ends (and_then r k)
and_then-Ends (rests s) k v h = h s v
and_then-Ends (stops s) k v h = v
and_then-Ends panics k v h = v
and_then-Ends starves k v h = tt

-- Whatever the channel and the connection answer, a `poll` of a live tunnel does not panic. When it
-- gives `Pending`, the tunnel can be polled again, and the messages from the channel were sent in
-- their order, each once, but for the one in the write state; keep-alives aside. When it gives
-- `Ready`, at most the last message from the channel was not sent.
pub tunnel_poll-Ends : (fuel : ℕ) (s : State) → Inv s → Ends (poll fuel s)
unfolding poll
tunnel_poll-Ends fuel s v =
    and_then-Ends (write_loop fuel s) (read_loop fuel) (write_loop-Ends fuel s v)
      (read_loop-Ends fuel)
