-- ===== src/Tunnel/Session/Outcomes.antt =====
-- How a call of `create_tunnel` goes on.
use mathlib.Core.List.{Perm}
use pocket_relay_client_shar.Prelude.{
  ℕ, ◌<◌, ◌≡◌, refl, sym, ap, ◌∙◌, subst, Option, some, List, [], ◌∷◌, ◌++◌, append-nil,
  append_assoc, map, length, Outcome, ok, panic, arith,
}
use pocket_relay_client_shar.Polling.{Poll, Run, rests, stops, panics, starves}
use pocket_relay_client_shar.Context.{ClientContext}
use pocket_relay_client_shar.Reconnect.{Result, err}
use pocket_relay_client_shar.Tasks.{Tasks}
use pocket_relay_client_shar.Api.Requests.{
  Headers, ServerStreamError, Exchange, classify, tunnel_endpoint, tunnel_headers,
  association_header, insert_association, create_server_tunnel,
}
use pocket_relay_client_shar.Tunnel.Pool.{
  starts, SocketHandle, Event, Joined, joined, broken, pending, allocate_pool,
}
use pocket_relay_client_shar.Tunnel.Pool.Joins
use pocket_relay_client_shar.Tunnel.Pool.Joins.{Spawned, Joins, allocate_pool-Joins}
use pocket_relay_client_shar.Tunnel.Relay.{Next, State, poll, and_then}
use pocket_relay_client_shar.Tunnel.Relay.Sending.{Inv, Lost}
use pocket_relay_client_shar.Tunnel.Relay.Life.{
  Arrival, arrive, Life, born, arrives, polled, Delivers, Outlives, Life-Inv, tunnel_poll-Outlives,
}
use pocket_relay_client_shar.Tunnel.Session.{
  new_tunnel, enough, await_tunnel, Session, refused, unallocated, allocating, relaying, ended,
  relay, handle_tasks, start_relay, with_connection, create_tunnel,
}

-- All that the connection gave in these arrivals.
abbrev pub offered : List Arrival → List (Poll Next)
offered [] = []
offered (a ∷ arrivals) = a.next ++ offered arrivals

offered-append : (xs ys : List Arrival) → offered (xs ++ ys) ≡ offered xs ++ offered ys
offered-append [] ys = refl
offered-append (x ∷ xs) ys =
    ap (λ l. x.next ++ l) (offered-append xs ys)
    ∙ sym (append_assoc x.next (offered xs) (offered ys))

-- The tunnel stopped after the first of these arrivals.
pub record Stopped (pool : List ℕ) (arrivals : List Arrival) (t : State) : Type 0 where
  pub before : List Arrival
  pub after : List Arrival
  pub arrivals_eq : arrivals ≡ before ++ after
  pub sends : Lost t
  pub delivers : Delivers pool (offered before) t

abbrev pub Awaits : List ℕ → List Arrival → Run State → Type 0
Awaits pool arrivals (rests t) = Inv t × Delivers pool (offered arrivals) t
Awaits pool arrivals (stops t) = Stopped pool arrivals t
Awaits pool arrivals panics = ⊥
Awaits pool arrivals starves = ⊥

poll-Awaits :
    (pool : List ℕ) (before arrivals : List Arrival) (t : State)
    → Life pool (offered before) t
    → ((u : State)
        → Life pool (offered before) u
        → Awaits pool (before ++ arrivals) (await_tunnel arrivals u))
    → (r : Run State) → poll (enough t) t ≡ r
    → Outlives pool (offered before) r
    → Awaits pool (before ++ arrivals) (and_then r (await_tunnel arrivals))
poll-Awaits pool before arrivals t life next (rests u) e v =
    next u (polled (enough t) (omega arith) (omega arith) life e)
poll-Awaits pool before arrivals t life next (stops u) e v = record {
  before = before;
  after = arrivals;
  arrivals_eq = refl;
  sends = v.0;
  delivers = v.1;
}
poll-Awaits pool before arrivals t life next panics e v = v
poll-Awaits pool before arrivals t life next starves e v = v

pub await-Awaits :
    (pool : List ℕ) (before arrivals : List Arrival) (s : State)
    → Life pool (offered before) s
    → Awaits pool (before ++ arrivals) (await_tunnel arrivals s)
unfolding await_tunnel
await-Awaits pool before [] s life =
    subst (λ l. Awaits pool l (rests s)) (sym (append-nil before)) (Life-Inv life)
await-Awaits pool before (a ∷ arrivals) s life =
    let t = arrive a s in
    let now = before ++ (a ∷ []) in
    let offers : offered before ++ a.next ≡ offered now =
      ap (λ l. offered before ++ l) (sym (append-nil a.next))
      ∙ sym (offered-append before (a ∷ [])) in
    let lives : Life pool (offered now) t = subst (λ o. Life pool o t) offers (arrives a life) in
    subst (λ l. Awaits pool l (and_then (poll (enough t) t) (await_tunnel arrivals)))
      (append_assoc before (a ∷ []) arrivals)
      (poll-Awaits pool now arrivals t lives (await-Awaits pool now arrivals) (poll (enough t) t)
        refl (tunnel_poll-Outlives (enough t) lives (omega arith) (omega arith)))

-- The handles are those of the four sockets in the order of their indexes, and the tasks spawned since
-- are theirs.
pub record Allocated (before after : Tasks) (pool : List SocketHandle) : Type 0 where
  pub starts_eq : map (λ h. h.start) pool ≡ starts
  pub new : List ℕ
  pub spawned : Spawned before after new
  pub perm : Perm (map (λ h. h.task) pool) new

abbrev pub Goes : Tasks → List Arrival → Outcome Session → Type 0
Goes before arrivals panic = ⊥
Goes before arrivals (ok (refused e tasks)) = tasks ≡ before
Goes before arrivals (ok (unallocated e tasks)) =
    (new : List ℕ) × Spawned before tasks new × (length new < 4)
Goes before arrivals (ok (allocating stages tasks)) = Joins.Inv before stages tasks
Goes before arrivals (ok (relaying s tasks)) =
    (pool : List SocketHandle) × Allocated before tasks pool
    × Inv s
    × Delivers (handle_tasks pool) (offered arrivals) s
Goes before arrivals (ok (ended s tasks)) =
    (pool : List SocketHandle) × Allocated before tasks pool
    × Stopped (handle_tasks pool) arrivals s

relay-Goes :
    (before tasks : Tasks) (arrivals : List Arrival) (pool : List SocketHandle) (r : Run State)
    → Allocated before tasks pool
    → Awaits (handle_tasks pool) arrivals r
    → Goes before arrivals (relay tasks r)
relay-Goes before tasks arrivals pool (rests s) a (v, d) = (pool, a, v, d)
relay-Goes before tasks arrivals pool (stops s) a v = (pool, a, v)
relay-Goes before tasks arrivals pool panics a v = v
relay-Goes before tasks arrivals pool starves a v = v

start_relay-Goes :
    (before : Tasks) (arrivals : List Arrival) (result : Joined)
    → Joins before result
    → Goes before arrivals (start_relay arrivals result)
unfolding start_relay
start_relay-Goes before arrivals (broken e tasks) v = v
start_relay-Goes before arrivals (pending stages tasks) v = v
start_relay-Goes before arrivals (joined pool tasks) (s, new, spawned, perm) =
    relay-Goes before tasks arrivals pool (await_tunnel arrivals (new_tunnel (handle_tasks pool)))
      (record { starts_eq = s; new = new; spawned = spawned; perm = perm })
      (await-Awaits (handle_tasks pool) [] arrivals (new_tunnel (handle_tasks pool)) born)

with_connection-Goes :
    {Io : Type 0} (before : Tasks) (arrivals : List Arrival) (next : Outcome Session)
    (connection : Result ServerStreamError Io)
    → Goes before arrivals next
    → Goes before arrivals (with_connection before next connection)
with_connection-Goes before arrivals next (err e) v = refl
with_connection-Goes before arrivals next (Result.ok io) v = v

module _ (header_value : List ℕ → Option (List ℕ)) {Client Url Io : Type 0}
    (join : Url → List ℕ → Option Url) (network : Client → Url → Headers → Exchange Io) where
  -- However the request ends, in whatever order the waits of the pool end, and whatever arrives: when
  -- the endpoint is a URL and the association can be a header, a call of `create_tunnel` does not
  -- panic. It was refused by the server and has spawned nothing; or has failed at the pool or still
  -- allocates it; or it relays between the connection and four sockets in the order of their indexes,
  -- which run as the tasks spawned since, or has ended. In its last two states it has sent the
  -- messages of the sockets in their order, each once, but for the one being written, or for the last
  -- at most, and each message read was delivered, in order, to the socket of its index.
  pub create_tunnel-Goes :
      (ctx : ClientContext Client Url) (url : Url) (association value : List ℕ)
      (events : List Event) (arrivals : List Arrival) (before : Tasks)
      → join ctx.base_url tunnel_endpoint ≡ some url
      → header_value association ≡ some value
      → Goes before arrivals
          (create_tunnel header_value join network ctx association events arrivals before)
  unfolding create_tunnel create_server_tunnel insert_association
  create_tunnel-Goes ctx url association value events arrivals before u h =
      let next = start_relay arrivals (allocate_pool events before) in
      let connection =
        classify
          (network ctx.http_client url (tunnel_headers ++ ((association_header, value) ∷ []))) in
      let e : create_tunnel header_value join network ctx association events arrivals before
          ≡ with_connection before next connection =
        rw (create_tunnel, create_server_tunnel, u, insert_association, h) in
      subst (Goes before arrivals) (sym e) (
        with_connection-Goes before arrivals next connection (
          start_relay-Goes before arrivals (allocate_pool events before)
            (allocate_pool-Joins events before)))
