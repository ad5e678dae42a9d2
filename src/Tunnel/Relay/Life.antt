-- ===== src/Tunnel/Relay/Life.antt =====
-- A tunnel from its making on: polls, with answers that arrive before, between and after them.
use pocket_relay_client_shar.Prelude.{
  ℕ, ◌<◌, ◌≡◌, refl, sym, ap, ◌∙◌, subst, Bool, Option, List, [], ◌++◌, append_assoc, length,
}
use pocket_relay_client_shar.Polling.{Poll, Run, rests, stops, panics, starves}
use pocket_relay_client_shar.Tunnel.Codec.{TunnelMessage}
use pocket_relay_client_shar.Tunnel.Relay.{recv, Next, World, State, poll}
use pocket_relay_client_shar.Tunnel.Relay.Sending.{Inv, Lost}
use pocket_relay_client_shar.Tunnel.Relay.Ledger.{Ends, tunnel_poll-Ends}
use pocket_relay_client_shar.Tunnel.Relay.Progress.{write_work}
use pocket_relay_client_shar.Tunnel.Relay.Messages.{route, Routed}
use pocket_relay_client_shar.Tunnel.Relay.Routing.{route-append, Routes, tunnel_poll-Routes}

abbrev pub new_world : World
new_world = record {
  rx = [];
  ready = [];
  flushed = [];
  next = [];
  taken = [];
  sent = [];
  delivered = [];
}

-- What arrives between two polls: the environment extends each of the scripts.
pub record Arrival : Type 0 where
  pub rx : List (Poll (Option TunnelMessage))
  pub ready : List (Poll Bool)
  pub flushed : List (Poll Bool)
  pub next : List (Poll Next)

abbrev pub arrive : Arrival → State → State
arrive a (self, w) = (
  self,
  record w {
    rx = w.rx ++ a.rx;
    ready = w.ready ++ a.ready;
    flushed = w.flushed ++ a.flushed;
    next = w.next ++ a.next;
  },
)

-- The states of a tunnel over this pool that was left pending by each of its polls so far, where
-- `offered` is what the connection had to give since the tunnel was made.
pub data Life (pool : List ℕ) : List (Poll Next) → State → Type 0 where
  born : Life pool [] (record { pool = pool; write_state = recv }, new_world)
  arrives :
      {offered : List (Poll Next)} {s : State} (a : Arrival)
      → Life pool offered s
      → Life pool (offered ++ a.next) (arrive a s)
  polled :
      {offered : List (Poll Next)} {s t : State} (fuel : ℕ)
      → write_work s.1 < fuel
      → length s.1.next < fuel
      → Life pool offered s
      → poll fuel s ≡ rests t
      → Life pool offered t

-- Each message that was read went to its handle, in order; those that were not are still there.
pub record Delivers (pool : List ℕ) (offered : List (Poll Next)) (s : State) : Type 0 where
  pub consumed : List (Poll Next)
  pub offered_eq : offered ≡ consumed ++ s.1.next
  pub delivered_eq : s.1.delivered ≡ route pool consumed
  pub pool_eq : s.0.pool ≡ pool

Routed-Delivers :
    (pool : List ℕ) (offered : List (Poll Next)) (s t : State)
    → Delivers pool offered s
    → Routed s t
    → Delivers pool offered t
Routed-Delivers pool offered s t d r = record {
  consumed = d.consumed ++ r.consumed;
  offered_eq =
      d.offered_eq
      ∙ ap (λ l. d.consumed ++ l) r.next_eq
      ∙ sym (append_assoc d.consumed r.consumed t.1.next);
  delivered_eq =
      r.delivered_eq
      ∙ ap (λ l. l ++ route s.0.pool r.consumed) d.delivered_eq
      ∙ ap (λ p. route pool d.consumed ++ route p r.consumed) d.pool_eq
      ∙ sym (route-append pool d.consumed r.consumed);
  pool_eq = r.pool_eq ∙ d.pool_eq;
}

-- In every state that a tunnel reaches, it can be polled, its messages are accounted for, and what
-- arrived was delivered.
pub Life-Inv :
    {pool : List ℕ} {offered : List (Poll Next)} {s : State}
    → Life pool offered s
    → Inv s × Delivers pool offered s
Life-Inv born = (
  record { live = tt; ledger = refl },
  record { consumed = []; offered_eq = refl; delivered_eq = refl; pool_eq = refl },
)
Life-Inv (arrives {s} a life) =
    let (v, d) = Life-Inv life in
    (
      record { live = v.live; ledger = v.ledger },
      record {
        consumed = d.consumed;
        offered_eq = ap (λ l. l ++ a.next) d.offered_eq ∙ append_assoc d.consumed s.1.next a.next;
        delivered_eq = d.delivered_eq;
        pool_eq = d.pool_eq;
      },
    )
Life-Inv (polled {offered} {s} {t} fuel f g life e) =
    let (v, d) = Life-Inv life in
    (
      subst Ends e (tunnel_poll-Ends fuel s v),
      Routed-Delivers _ offered s t d (subst (Routes s) e (tunnel_poll-Routes fuel s f g)),
    )

-- How a poll in the life of a tunnel ends: not by a panic, and not for want of fuel.
abbrev pub Outlives : List ℕ → List (Poll Next) → Run State → Type 0
Outlives pool offered (rests t) = Inv t × Delivers pool offered t
Outlives pool offered (stops t) = Lost t × Delivers pool offered t
Outlives pool offered panics = ⊥
Outlives pool offered starves = ⊥

outlives :
    (pool : List ℕ) (offered : List (Poll Next)) (s : State) (r : Run State)
    → Delivers pool offered s
    → Ends r
    → Routes s r
    → Outlives pool offered r
outlives pool offered s (rests t) d a b = (a, Routed-Delivers pool offered s t d b)
outlives pool offered s (stops t) d a b = (a, Routed-Delivers pool offered s t d b)
outlives pool offered s panics d a b = a
outlives pool offered s starves d a b = b

-- Whatever a new tunnel was polled, and whatever arrived before, between and since these polls, the
-- next poll comes to an end without a panic. Until then, over the whole life of the tunnel, the
-- messages from the channel were sent in their order, each once, but for the one in the write state,
-- or, when the poll stops the tunnel, but for the last one at most, keep-alives aside; and each
-- message of the connection that was read went, in order, to the handle at its index of the pool, or
-- to none if it is a keep-alive or has no handle.
pub tunnel_poll-Outlives :
    {pool : List ℕ} {offered : List (Poll Next)} {s : State} (fuel : ℕ)
    → Life pool offered s
    → write_work s.1 < fuel
    → length s.1.next < fuel
    → Outlives pool offered (poll fuel s)
tunnel_poll-Outlives {pool} {offered} {s} fuel life f g =
    let (v, d) = Life-Inv life in
    outlives pool offered s (poll fuel s) d (tunnel_poll-Ends fuel s v)
      (tunnel_poll-Routes fuel s f g)
