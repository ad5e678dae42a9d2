-- ===== src/Tunnel/Session/Refinement.antt =====
-- `create_tunnel` in detail against the same function of Tunnel.Service, which the reconnect loop calls.
use pocket_relay_client_shar.Prelude.{
  ℕ, ◌≡◌, refl, sym, subst, Option, none, some, List, [], ◌∷◌, ◌++◌, Outcome, ok, panic,
}
use pocket_relay_client_shar.Polling.{Run, rests, stops, panics, starves}
use pocket_relay_client_shar.Context.{ClientContext}
use pocket_relay_client_shar.Reconnect.{Result, err}
use pocket_relay_client_shar.Tasks.{Tasks}
use pocket_relay_client_shar.Api.Requests.{
  Headers, ServerStreamError, Exchange, classify, tunnel_endpoint, tunnel_headers,
  association_header, insert_association, create_server_tunnel,
}
use pocket_relay_client_shar.Tunnel.Pool.{Event, Joined, joined, broken, pending, allocate_pool}
use pocket_relay_client_shar.Tunnel.Relay.Life.{Arrival, born}
use pocket_relay_client_shar.Tunnel.Service
use pocket_relay_client_shar.Tunnel.Session.{
  new_tunnel, await_tunnel, Session, refused, unallocated, allocating, relaying, ended, relay,
  handle_tasks, start_relay, with_connection, create_tunnel,
}
use pocket_relay_client_shar.Tunnel.Session.Outcomes.{Awaits, await-Awaits}

abbrev pub pool_error : Joined → Option ℕ
pool_error (broken e tasks) = some e
pool_error _ = none

-- `io_other` is `std::io::Error::other`.
module _ (io_other : ServerStreamError → ℕ) where
  abbrev pub server_error : {Io : Type 0} → Result ServerStreamError Io → Option ℕ
  server_error (err e) = some (io_other e)
  server_error (Result.ok io) = none

  -- What the abstract function sees of a connection and a pool.
  abbrev pub summary : {Io : Type 0} → Result ServerStreamError Io → Joined → Service.Network
  summary connection result = record {
    server_error = server_error connection;
    pool_error = pool_error result;
  }

  -- A call that has come to its end gives this result.
  abbrev pub Gives : Result ℕ (Unit {0}) → Outcome Session → Type 0
  Gives r panic = ⊥
  Gives r (ok (refused e tasks)) = r ≡ err (io_other e)
  Gives r (ok (unallocated e tasks)) = r ≡ err e
  Gives r (ok (allocating stages tasks)) = Unit
  Gives r (ok (relaying s tasks)) = Unit
  Gives r (ok (ended s tasks)) = r ≡ Result.ok tt

  relay-Gives :
      (pool : List ℕ) (arrivals : List Arrival) (tasks : Tasks) (r : Run _)
      → Awaits pool arrivals r
      → Gives (Result.ok tt) (relay tasks r)
  relay-Gives pool arrivals tasks (rests s) v = tt
  relay-Gives pool arrivals tasks (stops s) v = refl
  relay-Gives pool arrivals tasks panics v = v
  relay-Gives pool arrivals tasks starves v = v

  with_connection-Gives :
      {Io : Type 0} (arrivals : List Arrival) (before : Tasks) (result : Joined)
      (connection : Result ServerStreamError Io)
      → Gives
          (Service.create_tunnel (summary connection result))
          (with_connection before (start_relay arrivals result) connection)
  unfolding Service.create_tunnel start_relay
  with_connection-Gives arrivals before result (err e) = refl
  with_connection-Gives arrivals before (broken e tasks) (Result.ok io) = refl
  with_connection-Gives arrivals before (pending stages tasks) (Result.ok io) = tt
  with_connection-Gives arrivals before (joined pool tasks) (Result.ok io) =
      relay-Gives (handle_tasks pool) arrivals tasks
        (await_tunnel arrivals (new_tunnel (handle_tasks pool)))
        (await-Awaits (handle_tasks pool) [] arrivals (new_tunnel (handle_tasks pool)) born)

  module _ (header_value : List ℕ → Option (List ℕ)) {Client Url Io : Type 0}
      (join : Url → List ℕ → Option Url) (network : Client → Url → Headers → Exchange Io) where
    -- A call of `create_tunnel` that comes to its end gives what the abstract function gives, which the
    -- reconnect loop is stated with: the error of the server's connection, made one of `std::io`; else
    -- that of the pool; and success when the tunnel has ended. Provided that the endpoint is a URL and
    -- that the association can be a header.
    pub create_tunnel-refines :
        (ctx : ClientContext Client Url) (url : Url) (association value : List ℕ)
        (events : List Event) (arrivals : List Arrival) (before : Tasks)
        → join ctx.base_url tunnel_endpoint ≡ some url
        → header_value association ≡ some value
        → Gives
            (Service.create_tunnel (
              summary
                (classify (
                  network ctx.http_client url
                    (tunnel_headers ++ ((association_header, value) ∷ []))))
                (allocate_pool events before)))
            (create_tunnel header_value join network ctx association events arrivals before)
    unfolding create_tunnel create_server_tunnel insert_association
    create_tunnel-refines ctx url association value events arrivals before u h =
        let connection =
          classify
            (network ctx.http_client url (tunnel_headers ++ ((association_header, value) ∷ []))) in
        let result = allocate_pool events before in
        let e : create_tunnel header_value join network ctx association events arrivals before
            ≡ with_connection before (start_relay arrivals result) connection =
          rw (create_tunnel, create_server_tunnel, u, insert_association, h) in
        subst (Gives (Service.create_tunnel (summary connection result))) (sym e)
          (with_connection-Gives arrivals before result connection)
