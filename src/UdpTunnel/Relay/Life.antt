-- ===== src/UdpTunnel/Relay/Life.antt =====
-- A UDP tunnel from its making on: polls, with answers that arrive before, between and after them.
use pocket_relay_client_shar.Prelude.{
  ℕ, ◌<◌, ◌≤◌, ◌≡◌, refl, sym, ap, ◌∙◌, subst, Bool, true, Option, List, [], ◌++◌, append_assoc,
  length, length-append, All, All-append, arith,
}
use pocket_relay_client_shar.Polling.{Poll, ready, Run, rests, stops, panics, starves}
use pocket_relay_client_shar.UdpTunnel.Message.{TunnelMessage, Protocol}
use pocket_relay_client_shar.UdpTunnel.Relay.{recv, World, State, poll}
use pocket_relay_client_shar.UdpTunnel.Relay.Walk.{Ends, poll-Ends}
use pocket_relay_client_shar.UdpTunnel.Relay.Ledger.{Lost, Accounted}
use pocket_relay_client_shar.UdpTunnel.Relay.Accounts.{Accounted-Kept}
use pocket_relay_client_shar.UdpTunnel.Relay.Thins.{done}
use pocket_relay_client_shar.UdpTunnel.Relay.Progress.{write_work}
use pocket_relay_client_shar.UdpTunnel.Relay.Route.{Routed, route}
use pocket_relay_client_shar.UdpTunnel.Relay.Routing.{route-append, Routes, udp_poll-Routes}

-- The world of a tunnel that is made at `now`.
abbrev pub new_world : ℕ → World
new_world now = record {
  rx = [];
  send_ready = [];
  send = [];
  ticks = [];
  elapse = [];
  now = now;
  recv_ready = [];
  recv = [];
  taken = [];
  sent = [];
  delivered = [];
}

-- The struct that `create_tunnel` makes.
abbrev pub new_tunnel : ℕ → List ℕ → ℕ → State
new_tunnel tunnel_id pool now = (
  record { tunnel_id = tunnel_id; pool = pool; write_state = recv; last_keep_alive = now },
  new_world now,
)

-- What arrives between two polls: the environment extends each of the scripts.
pub record Arrival : Type 0 where
  pub rx : List (Poll (Option TunnelMessage))
  pub send_ready : List (Poll Bool)
  pub send : List (Poll Bool)
  pub ticks : List Bool
  pub elapse : List ℕ
  pub recv_ready : List (Poll Bool)
  pub recv : List (Poll (Option (List ℕ)))

-- The socket takes a datagram whenever it said that it is ready.
abbrev pub IsFair : Arrival → Type 0
IsFair a = All (λ p. p ≡ ready true) a.send × (length a.send_ready ≤ length a.send)

abbrev pub arrive : Arrival → State → State
arrive a (self, w) = (
  self,
  record w {
    rx = w.rx ++ a.rx;
    send_ready = w.send_ready ++ a.send_ready;
    send = w.send ++ a.send;
    ticks = w.ticks ++ a.ticks;
    elapse = w.elapse ++ a.elapse;
    recv_ready = w.recv_ready ++ a.recv_ready;
    recv = w.recv ++ a.recv;
  },
)

module _ (protocol : Protocol) where
  -- The states of a tunnel with this id and pool that was left pending by each of its polls so far,
  -- where `offered` is what the socket had to give since the tunnel was made.
  pub data Life (tunnel_id : ℕ) (pool : List ℕ)
      : List (Poll (Option (List ℕ))) → State → Type 0 where
    born : (now : ℕ) → Life tunnel_id pool [] (new_tunnel tunnel_id pool now)
    arrives :
        {offered : List (Poll (Option (List ℕ)))} {s : State} (a : Arrival)
        → IsFair a
        → Life tunnel_id pool offered s
        → Life tunnel_id pool (offered ++ a.recv) (arrive a s)
    polled :
        {offered : List (Poll (Option (List ℕ)))} {s t : State} (fuel : ℕ)
        → write_work s.1 < fuel
        → length s.1.recv < fuel
        → Life tunnel_id pool offered s
        → poll protocol fuel s ≡ rests t
        → Life tunnel_id pool offered t

  -- Each datagram that was read went where `route` sends it; those that were not are still there.
  pub record Delivers (pool : List ℕ) (offered : List (Poll (Option (List ℕ)))) (s : State)
      : Type 0 where
    pub consumed : List (Poll (Option (List ℕ)))
    pub offered_eq : offered ≡ consumed ++ s.1.recv
    pub delivered_eq : s.1.delivered ≡ route protocol pool consumed
    pub pool_eq : s.0.pool ≡ pool

  Routed-Delivers :
      (pool : List ℕ) (offered : List (Poll (Option (List ℕ)))) (s t : State)
      → Delivers pool offered s
      → Routed protocol s t
      → Delivers pool offered t
  Routed-Delivers pool offered s t d r = record {
    consumed = d.consumed ++ r.consumed;
    offered_eq =
        d.offered_eq
        ∙ ap (λ l. d.consumed ++ l) r.recv_eq
        ∙ sym (append_assoc d.consumed r.consumed t.1.recv);
    delivered_eq =
        r.delivered_eq
        ∙ ap (λ l. l ++ route protocol s.0.pool r.consumed) d.delivered_eq
        ∙ ap (λ p. route protocol pool d.consumed ++ route protocol p r.consumed) d.pool_eq
        ∙ sym (route-append protocol pool d.consumed r.consumed);
    pool_eq = r.pool_eq ∙ d.pool_eq;
  }

module _ (protocol : Protocol) (tunnel_id : ℕ) where
  arrive-Accounted :
      (a : Arrival) (s : State)
      → IsFair a
      → Accounted protocol tunnel_id s
      → Accounted protocol tunnel_id (arrive a s)
  arrive-Accounted a s fair (v, l) = (
    record {
      live = v.live;
      timely = v.timely;
      sends_ok = All-append _ s.1.send a.send v.sends_ok fair.0;
      sends_enough = omega (
        arith,
        v.sends_enough,
        fair.1,
        length-append s.1.send a.send,
        length-append s.1.send_ready a.send_ready,
      );
    },
    record { messages = l.messages; id_eq = l.id_eq; sent_eq = l.sent_eq; thins = l.thins },
  )

  -- In every state that a tunnel reaches, it can be polled, its messages are accounted for, and what
  -- arrived was delivered.
  pub Life-Accounted :
      {pool : List ℕ} {offered : List (Poll (Option (List ℕ)))} {s : State}
      → Life protocol tunnel_id pool offered s
      → Accounted protocol tunnel_id s × Delivers protocol pool offered s
  Life-Accounted (born now) = (
    (
      record { live = tt; timely = omega arith; sends_ok = tt; sends_enough = omega arith },
      record { messages = []; id_eq = refl; sent_eq = refl; thins = done },
    ),
    record { consumed = []; offered_eq = refl; delivered_eq = refl; pool_eq = refl },
  )
  Life-Accounted (arrives {s = s} a fair life) =
      let (v, d) = Life-Accounted life in
      (
        arrive-Accounted a s fair v,
        record {
          consumed = d.consumed;
          offered_eq = ap (λ l. l ++ a.recv) d.offered_eq ∙ append_assoc d.consumed s.1.recv a.recv;
          delivered_eq = d.delivered_eq;
          pool_eq = d.pool_eq;
        },
      )
  Life-Accounted (polled {offered} {s} {t} fuel f g life e) =
      let (v, d) = Life-Accounted life in
      (
        subst (Ends (Accounted protocol tunnel_id) (Lost protocol tunnel_id)) e
            (poll-Ends protocol _ _ (Accounted-Kept protocol tunnel_id) fuel s v),
        Routed-Delivers protocol _ offered s t d
            (subst (Routes protocol s) e (udp_poll-Routes protocol fuel s f g)),
      )

  -- How a poll in the life of a tunnel ends: not by a panic, and not for want of fuel.
  abbrev pub Outlives : List ℕ → List (Poll (Option (List ℕ))) → Run State → Type 0
  Outlives pool offered (rests t) =
      Accounted protocol tunnel_id t × Delivers protocol pool offered t
  Outlives pool offered (stops t) = Lost protocol tunnel_id t × Delivers protocol pool offered t
  Outlives pool offered panics = ⊥
  Outlives pool offered starves = ⊥

  outlives :
      (pool : List ℕ) (offered : List (Poll (Option (List ℕ)))) (s : State) (r : Run State)
      → Delivers protocol pool offered s
      → Ends (Accounted protocol tunnel_id) (Lost protocol tunnel_id) r
      → Routes protocol s r
      → Outlives pool offered r
  outlives pool offered s (rests t) d a b = (a, Routed-Delivers protocol pool offered s t d b)
  outlives pool offered s (stops t) d a b = (a, Routed-Delivers protocol pool offered s t d b)
  outlives pool offered s panics d a b = a
  outlives pool offered s starves d a b = b

  -- Whatever a new UDP tunnel was polled, and whatever arrived before, between and since these polls, on
  -- a socket that takes a datagram whenever it said that it is ready, the next poll comes to an end
  -- without a panic. Until then, over the whole life of the tunnel, the messages from the channel were
  -- sent in their order, each in one datagram with the tunnel's id, but for the one in the write state,
  -- or, when the poll stops the tunnel, but for the last one at most, and but for keep-alives, each of
  -- which was added or took the place of one message; and each datagram that was read and holds a
  -- forwarded message went, in order, to the handle at the message's index of the pool, if there is one.
  pub udp_poll-Outlives :
      {pool : List ℕ} {offered : List (Poll (Option (List ℕ)))} {s : State} (fuel : ℕ)
      → Life protocol tunnel_id pool offered s
      → write_work s.1 < fuel
      → length s.1.recv < fuel
      → Outlives pool offered (poll protocol fuel s)
  udp_poll-Outlives {pool} {offered} {s} fuel life f g =
      let (v, d) = Life-Accounted life in
      outlives pool offered s (poll protocol fuel s) d
        (poll-Ends protocol _ _ (Accounted-Kept protocol tunnel_id) fuel s v)
        (udp_poll-Routes protocol fuel s f g)
