-- ===== src/UdpTunnel/Relay/Routing.antt =====
-- Where `poll` of the UDP tunnel delivers what arrives from the server, and that it comes to an end.
use pocket_relay_client_shar.Prelude.{
  ℕ, zero, suc, ◌<◌, ◌≡◌, refl, sym, ap, ◌∙◌, Option, none, some, List, [], ◌∷◌, ◌++◌, append_assoc,
  length, Outcome, ok, panic, arith,
}
use pocket_relay_client_shar.Polling.{Poll, pending, ready, Run, rests, stops, panics, starves}
use pocket_relay_client_shar.UdpTunnel.Message.{Protocol}
use pocket_relay_client_shar.UdpTunnel.Relay.{
  TunnelReadState, continue, State, poll_read_state, read_next, and_then, write_loop, read_loop,
  poll,
}
use pocket_relay_client_shar.UdpTunnel.Relay.Progress.{WriteEnds, write_loop-WriteEnds, write_work}
use pocket_relay_client_shar.UdpTunnel.Relay.Packets.{read_step}
use pocket_relay_client_shar.UdpTunnel.Relay.Route.{
  route_packet, route, Routed, ReadRouted, Same-Routed,
}

module _ (protocol : Protocol) where
  open protocol use {deserialize_message}

  pub route-append :
      (pool : List ℕ) (xs ys : List (Poll (Option (List ℕ))))
      → route protocol pool (xs ++ ys) ≡ route protocol pool xs ++ route protocol pool ys
  route-append pool [] ys = refl
  route-append pool (pending ∷ xs) ys = route-append pool xs ys
  route-append pool (ready none ∷ xs) ys = route-append pool xs ys
  route-append pool (ready (some buffer) ∷ xs) ys =
      ap (λ r. route_packet pool (deserialize_message buffer) ++ r) (route-append pool xs ys)
      ∙ sym
          (append_assoc (route_packet pool (deserialize_message buffer)) (route protocol pool xs) _)

  Routed-trans : (s t u : State) → Routed protocol s t → Routed protocol t u → Routed protocol s u
  Routed-trans s t u a b = record {
    consumed = a.consumed ++ b.consumed;
    recv_eq =
        a.recv_eq
        ∙ ap (λ l. a.consumed ++ l) b.recv_eq
        ∙ sym (append_assoc a.consumed b.consumed u.1.recv);
    delivered_eq =
        rw (b.delivered_eq, a.delivered_eq, a.pool_eq, route-append s.0.pool a.consumed b.consumed)
          (append_assoc s.1.delivered (route protocol s.0.pool a.consumed)
            (route protocol s.0.pool b.consumed));
    pool_eq = b.pool_eq ∙ a.pool_eq;
  }

  -- The deliveries of a poll that comes to an end are those that `route` gives for what it read.
  abbrev pub Routes : State → Run State → Type 0
  Routes s (rests t) = Routed protocol s t
  Routes s (stops t) = Routed protocol s t
  Routes s panics = Unit {0}
  Routes s starves = ⊥

  Routes-trans : (s t : State) (r : Run State) → Routed protocol s t → Routes t r → Routes s r
  Routes-trans s t (rests u) a b = Routed-trans s t u a b
  Routes-trans s t (stops u) a b = Routed-trans s t u a b
  Routes-trans s t panics a b = tt
  Routes-trans s t starves a b = b

  read_next-Routes :
      (fuel : ℕ) (rounds : State → Run State) (s : State)
      → ((t : State) → length t.1.recv < fuel → Routes t (rounds t))
      → (r : Outcome (Poll TunnelReadState × State)) → length s.1.recv < suc fuel
      → ReadRouted protocol s r
      → Routes s (read_next rounds r)
  unfolding read_next
  read_next-Routes fuel rounds s h panic e v = tt
  read_next-Routes fuel rounds s h (ok (pending, t)) e v = v
  read_next-Routes fuel rounds s h (ok (ready TunnelReadState.stop, t)) e v = v
  read_next-Routes fuel rounds s h (ok (ready continue, t)) e v =
      Routes-trans s t (rounds t) v.0 (h t (omega (arith, v.1)))

  read_loop-Routes :
      (fuel : ℕ) (s : State) → length s.1.recv < fuel → Routes s (read_loop protocol fuel s)
  unfolding read_loop
  read_loop-Routes zero s h = absurd (omega arith)
  read_loop-Routes (suc fuel) s h =
      read_next-Routes fuel (read_loop protocol fuel) s (read_loop-Routes fuel)
        (poll_read_state protocol s) h (read_step protocol s)

  and_then-Routes :
      (fuel : ℕ) (s : State) (r : Run State)
      → length s.1.recv < fuel
      → WriteEnds s r
      → Routes s (and_then r (read_loop protocol fuel))
  and_then-Routes fuel s (rests t) h v =
      Routes-trans s t (read_loop protocol fuel t) (Same-Routed protocol s t v)
        (read_loop-Routes fuel t (omega (arith, ap length v.recv_eq)))
  and_then-Routes fuel s (stops t) h v = Same-Routed protocol s t v
  and_then-Routes fuel s panics h v = tt
  and_then-Routes fuel s starves h v = v

  -- With fuel above the number of answers that the channel and the socket have in store, `poll` comes
  -- to an end. The datagrams that it read are a prefix of those of the socket, and for each of them
  -- that holds a forwarded message, in order, the payload went to the handle at the message's index of
  -- the pool, if there is one; nothing else was delivered, and the pool stays.
  pub udp_poll-Routes :
      (fuel : ℕ) (s : State)
      → write_work s.1 < fuel
      → length s.1.recv < fuel
      → Routes s (poll protocol fuel s)
  unfolding poll
  udp_poll-Routes fuel s a b =
      and_then-Routes fuel s (write_loop protocol fuel s) b (write_loop-WriteEnds protocol fuel s a)
