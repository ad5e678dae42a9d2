-- ===== src/Tunnel/Service/Sessions.antt =====
-- `start_tunnel_server` of src/servers/tunnel.rs with each of its tunnels in detail.
use pocket_relay_client_shar.Prelude.{
  ℕ, ◌≡◌, Option, none, some, List, [], ◌∷◌, ◌++◌, Outcome, ok, panic, ◌>>=◌,
}
use pocket_relay_client_shar.Context.{ClientContext}
use pocket_relay_client_shar.Reconnect
use pocket_relay_client_shar.Reconnect.{Result, done}
use pocket_relay_client_shar.Reconnect.Sessions.{
  Attempt, over, going, Served, stands, serve, tasks_at, Serves, Agrees, serve-Serves,
}
use pocket_relay_client_shar.Tasks.{Tasks}
use pocket_relay_client_shar.Api.Requests.{
  Headers, ServerStreamError, Exchange, classify, tunnel_endpoint, tunnel_headers,
  association_header,
}
use pocket_relay_client_shar.Tunnel.Pool.{Event, allocate_pool}
use pocket_relay_client_shar.Tunnel.Relay.Life.{Arrival}
use pocket_relay_client_shar.Tunnel.Service
use pocket_relay_client_shar.Tunnel.Session.{
  Session, refused, unallocated, allocating, relaying, ended, create_tunnel,
}
use pocket_relay_client_shar.Tunnel.Session.Refinement.{summary, Gives, create_tunnel-refines}

-- `io_other` is `std::io::Error::other`. Of attempt number `n`, the client's request meets `network n`,
-- the waits of the pool end by `events n`, and `arrivals n` arrive.
module _ (io_other : ServerStreamError → ℕ) (header_value : List ℕ → Option (List ℕ))
    {Client Url Io : Type 0} (join : Url → List ℕ → Option Url)
    (network : ℕ → Client → Url → Headers → Exchange Io) (events : ℕ → List Event)
    (arrivals : ℕ → List Arrival) (ctx : ClientContext Client Url) where
  -- What the loop gets from an attempt.
  abbrev pub attempt_of : Session → Attempt ℕ Session
  attempt_of (refused e tasks) = over (Reconnect.err (io_other e)) tasks
  attempt_of (unallocated e tasks) = over (Reconnect.err e) tasks
  attempt_of (ended s tasks) = over (Reconnect.ok tt) tasks
  attempt_of (allocating stages tasks) = going (allocating stages tasks)
  attempt_of (relaying s tasks) = going (relaying s tasks)

  unfoldable pub session : List ℕ → ℕ → Tasks → Outcome (Attempt ℕ Session)
  unfolding create_tunnel
  session association n tasks = do
    s ← create_tunnel header_value join (network n) ctx association (events n) (arrivals n) tasks
    ok (attempt_of s)

  unfoldable pub start_tunnel_server : ℕ → Tasks → Outcome (Served ℕ Session)
  unfolding session serve
  start_tunnel_server fuel tasks = elim ctx.association [
    | none ↦ ok (stands done tasks)
    | some association ↦ serve (session association) fuel tasks
  ]

  session-Agrees :
      (result : Result ℕ (Unit {0})) (s : Outcome Session)
      → Gives io_other result s
      → Agrees result (s >>= λ s. ok (attempt_of s))
  session-Agrees result panic v = v
  session-Agrees result (ok (refused e tasks)) v = v
  session-Agrees result (ok (unallocated e tasks)) v = v
  session-Agrees result (ok (allocating stages tasks)) v = tt
  session-Agrees result (ok (relaying s tasks)) v = tt
  session-Agrees result (ok (ended s tasks)) v = v

  -- What the abstract service meets in attempt number `n` to the URL, with the value of the header.
  abbrev pub met : Url → List ℕ → List ℕ → Tasks → ℕ → Service.Network
  met url value association before n =
      summary io_other
        (classify
          (network n ctx.http_client url (tunnel_headers ++ ((association_header, value) ∷ []))))
        (allocate_pool (events n) (tasks_at (session association) before n))

  -- The tunnel service in detail goes on as the abstract one, when the context has an association token,
  -- the endpoint is a URL and the token can be a header: whatever the connections, the pools and the
  -- tunnels meet, it does not panic; and after any number of attempts it runs or has failed as the
  -- abstract service, with the delays of that, or it is in the middle of an attempt, where the abstract
  -- service has made all the attempts before, and runs, with the same delays.
  pub start_tunnel_server-Serves :
      (url : Url) (association value : List ℕ) (before : Tasks) (fuel : ℕ)
      → join ctx.base_url tunnel_endpoint ≡ some url
      → header_value association ≡ some value
      → ctx.association ≡ some association
      → Serves
          (session association)
          before
          (Service.start_tunnel_server ctx
            (λ client base_url token. met url value association before))
          fuel
          (start_tunnel_server fuel before)
  unfolding start_tunnel_server session Service.start_tunnel_server
  start_tunnel_server-Serves url association value before fuel at_url at_header token =
      let abstract = λ (n : ℕ). Service.create_tunnel (met url value association before n) in
      rw (start_tunnel_server, Service.start_tunnel_server, token)
        (serve-Serves (session association) before abstract
          (λ n.
            session-Agrees (abstract n)
              (create_tunnel header_value join (network n) ctx association (events n) (arrivals n)
                (tasks_at (session association) before n))
              (create_tunnel-refines io_other header_value join (network n) ctx url association
                value (events n) (arrivals n) (tasks_at (session association) before n) at_url
                at_header))
          fuel)
