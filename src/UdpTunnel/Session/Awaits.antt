-- ===== src/UdpTunnel/Session/Awaits.antt =====
-- A UDP tunnel that is awaited: a poll after each arrival.
use pocket_relay_client_shar.Prelude.{
  ℕ, ◌≡◌, refl, sym, ap, ◌∙◌, subst, Option, List, [], ◌∷◌, ◌++◌, append-nil, append_assoc, All,
  arith,
}
use pocket_relay_client_shar.Polling.{Poll, Run, rests, stops, panics, starves}
use pocket_relay_client_shar.UdpTunnel.Message.{Protocol}
use pocket_relay_client_shar.UdpTunnel.Relay.{State, poll, and_then}
use pocket_relay_client_shar.UdpTunnel.Relay.Ledger.{Accounted, Lost}
use pocket_relay_client_shar.UdpTunnel.Relay.Life.{
  Arrival, IsFair, arrive, Life, arrives, polled, Delivers, Outlives, Life-Accounted,
  udp_poll-Outlives,
}
use pocket_relay_client_shar.UdpTunnel.Session.{enough, await_tunnel}

-- All the datagrams that the server's socket gave in these arrivals.
abbrev pub offered : List Arrival → List (Poll (Option (List ℕ)))
offered [] = []
offered (a ∷ arrivals) = a.recv ++ offered arrivals

offered-append : (xs ys : List Arrival) → offered (xs ++ ys) ≡ offered xs ++ offered ys
offered-append [] ys = refl
offered-append (x ∷ xs) ys =
    ap (λ l. x.recv ++ l) (offered-append xs ys)
    ∙ sym (append_assoc x.recv (offered xs) (offered ys))

module _ (protocol : Protocol) (tunnel_id : ℕ) where
  -- The tunnel stopped after the first of these arrivals.
  pub record Stopped (pool : List ℕ) (arrivals : List Arrival) (t : State) : Type 0 where
    pub before : List Arrival
    pub after : List Arrival
    pub arrivals_eq : arrivals ≡ before ++ after
    pub sends : Lost protocol tunnel_id t
    pub delivers : Delivers protocol pool (offered before) t

  abbrev pub Awaits : List ℕ → List Arrival → Run State → Type 0
  Awaits pool arrivals (rests t) =
      Accounted protocol tunnel_id t × Delivers protocol pool (offered arrivals) t
  Awaits pool arrivals (stops t) = Stopped pool arrivals t
  Awaits pool arrivals panics = ⊥
  Awaits pool arrivals starves = ⊥

  poll-Awaits :
      (pool : List ℕ) (before arrivals : List Arrival) (t : State)
      → Life protocol tunnel_id pool (offered before) t
      → ((u : State)
          → Life protocol tunnel_id pool (offered before) u
          → Awaits pool (before ++ arrivals) (await_tunnel protocol arrivals u))
      → (r : Run State) → poll protocol (enough t) t ≡ r
      → Outlives protocol tunnel_id pool (offered before) r
      → Awaits pool (before ++ arrivals) (and_then r (await_tunnel protocol arrivals))
  poll-Awaits pool before arrivals t life next (rests u) e v =
      next u (polled (enough t) (omega arith) (omega arith) life e)
  poll-Awaits pool before arrivals t life next (stops u) e v = record {
    before = before;
    after = arrivals;
    arrivals_eq = refl;
    sends = v.0;
    delivers = v.1;
  }
  poll-Awaits pool before arrivals t life next panics e v = v
  poll-Awaits pool before arrivals t life next starves e v = v

  pub await-Awaits :
      (pool : List ℕ) (before arrivals : List Arrival) (s : State)
      → All IsFair arrivals
      → Life protocol tunnel_id pool (offered before) s
      → Awaits pool (before ++ arrivals) (await_tunnel protocol arrivals s)
  unfolding await_tunnel
  await-Awaits pool before [] s fair life =
      subst (λ l. Awaits pool l (rests s)) (sym (append-nil before))
        (Life-Accounted protocol tunnel_id life)
  await-Awaits pool before (a ∷ arrivals) s fair life =
      let t = arrive a s in
      let now = before ++ (a ∷ []) in
      let offers : offered before ++ a.recv ≡ offered now =
        ap (λ l. offered before ++ l) (sym (append-nil a.recv))
        ∙ sym (offered-append before (a ∷ [])) in
      let lives : Life protocol tunnel_id pool (offered now) t =
        subst (λ o. Life protocol tunnel_id pool o t) offers (arrives a fair.0 life) in
      subst
        (λ l.
          Awaits pool l (and_then (poll protocol (enough t) t) (await_tunnel protocol arrivals)))
        (append_assoc before (a ∷ []) arrivals)
        (poll-Awaits pool now arrivals t lives (λ u. await-Awaits pool now arrivals u fair.1)
          (poll protocol (enough t) t) refl
          (udp_poll-Outlives protocol tunnel_id (enough t) lives (omega arith) (omega arith)))
