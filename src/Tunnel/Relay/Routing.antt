-- ===== src/Tunnel/Relay/Routing.antt =====
-- Where `poll` delivers what arrives from the server, and that it comes to an end.
use pocket_relay_client_shar.Prelude.{
  ℕ, zero, suc, ◌<◌, ◌≡◌, refl, sym, ap, ◌∙◌, List, [], ◌∷◌, ◌++◌, append-nil, append_assoc, length,
  Outcome, ok, panic, arith,
}
use pocket_relay_client_shar.Polling.{Poll, pending, ready, Run, rests, stops, panics, starves}
use pocket_relay_client_shar.Tunnel.Relay.{
  TunnelReadState, continue, Next, item, failed, closed, State, poll_read_state, read_next,
  and_then, write_loop, read_loop, poll,
}
use pocket_relay_client_shar.Tunnel.Relay.Progress.{
  write_work, Same, WriteEnds, write_loop-WriteEnds,
}
use pocket_relay_client_shar.Tunnel.Relay.Messages.{
  route_message, route, Routed, ReadRouted, read_step,
}

pub route-append :
    (pool : List ℕ) (xs ys : List (Poll Next))
    → route pool (xs ++ ys) ≡ route pool xs ++ route pool ys
route-append pool [] ys = refl
route-append pool (pending ∷ xs) ys = route-append pool xs ys
route-append pool (ready failed ∷ xs) ys = route-append pool xs ys
route-append pool (ready closed ∷ xs) ys = route-append pool xs ys
route-append pool (ready (item m) ∷ xs) ys =
    ap (λ r. route_message pool m ++ r) (route-append pool xs ys)
    ∙ sym (append_assoc (route_message pool m) (route pool xs) (route pool ys))

Routed-trans : (s t u : State) → Routed s t → Routed t u → Routed s u
Routed-trans s t u a b = record {
  consumed = a.consumed ++ b.consumed;
  next_eq =
      a.next_eq
      ∙ ap (λ l. a.consumed ++ l) b.next_eq
      ∙ sym (append_assoc a.consumed b.consumed u.1.next);
  delivered_eq =
      rw (b.delivered_eq, a.delivered_eq, a.pool_eq, route-append s.0.pool a.consumed b.consumed)
        (append_assoc s.1.delivered (route s.0.pool a.consumed) (route s.0.pool b.consumed));
  pool_eq = b.pool_eq ∙ a.pool_eq;
}

-- The deliveries of a poll that comes to an end are those that `route` gives for what it read.
abbrev pub Routes : State → Run State → Type 0
Routes s (rests t) = Routed s t
Routes s (stops t) = Routed s t
Routes s panics = Unit {0}
Routes s starves = ⊥

Routes-trans : (s t : State) (r : Run State) → Routed s t → Routes t r → Routes s r
Routes-trans s t (rests u) a b = Routed-trans s t u a b
Routes-trans s t (stops u) a b = Routed-trans s t u a b
Routes-trans s t panics a b = tt
Routes-trans s t starves a b = b

read_next-Routes :
    (fuel : ℕ) (rounds : State → Run State) (s : State)
    → ((t : State) → length t.1.next < fuel → Routes t (rounds t))
    → (r : Outcome (Poll TunnelReadState × State)) → length s.1.next < suc fuel
    → ReadRouted s r
    → Routes s (read_next rounds r)
unfolding read_next
read_next-Routes fuel rounds s h panic e v = tt
read_next-Routes fuel rounds s h (ok (pending, t)) e v = v
read_next-Routes fuel rounds s h (ok (ready TunnelReadState.stop, t)) e v = v
read_next-Routes fuel rounds s h (ok (ready continue, t)) e v =
    Routes-trans s t (rounds t) v.0 (h t (omega (arith, v.1)))

read_loop-Routes : (fuel : ℕ) (s : State) → length s.1.next < fuel → Routes s (read_loop fuel s)
unfolding read_loop
read_loop-Routes zero s h = absurd (omega arith)
read_loop-Routes (suc fuel) s h =
    read_next-Routes fuel (read_loop fuel) s (read_loop-Routes fuel) (poll_read_state s) h
      (read_step s.0 s.1 s.1.next)

Same-Routed : (s t : State) → Same s t → Routed s t
Same-Routed s t v = record {
  consumed = [];
  next_eq = sym v.next_eq;
  delivered_eq = v.delivered_eq ∙ sym (append-nil s.1.delivered);
  pool_eq = v.pool_eq;
}

and_then-Routes :
    (fuel : ℕ) (s : State) (r : Run State)
    → length s.1.next < fuel
    → WriteEnds s r
    → Routes s (and_then r (read_loop fuel))
and_then-Routes fuel s (rests t) h v =
    Routes-trans s t (read_loop fuel t) (Same-Routed s t v)
      (read_loop-Routes fuel t (omega (arith, ap length v.next_eq)))
and_then-Routes fuel s (stops t) h v = Same-Routed s t v
and_then-Routes fuel s panics h v = tt
and_then-Routes fuel s starves h v = v

-- With fuel above the number of answers that the channel and the connection have in store, `poll`
-- comes to an end. The answers that it read are a prefix of those of the connection, and each message
-- among them, in order, went to the handle at its index of the pool, or to none if it is a keep-alive
-- or has no handle; the pool stays.
pub tunnel_poll-Routes :
    (fuel : ℕ) (s : State) → write_work s.1 < fuel → length s.1.next < fuel → Routes s (poll fuel s)
unfolding poll
tunnel_poll-Routes fuel s a b =
    and_then-Routes fuel s (write_loop fuel s) b (write_loop-WriteEnds fuel s a)
