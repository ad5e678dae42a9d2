-- ===== src/Tests/Sessions.antt =====
-- `create_tunnel` of src/servers/tunnel.rs with its pool and its future, on a concrete session.
use pocket_relay_client_shar.Prelude.{
  ℕ, zero, suc, ◌≡◌, ◌≤◌, ◌<◌, refl, ◌++◌, true, Option, none, some, List, [], ◌∷◌, Outcome, ok,
  arith,
}
use pocket_relay_client_shar.Prelude.Text.{code_points}
use pocket_relay_client_shar.Polling.{pending, ready}
use pocket_relay_client_shar.Context.{ClientContext}
use pocket_relay_client_shar.Tasks.{initial}
use pocket_relay_client_shar.Api.Requests.{
  Headers, Exchange, ServerStreamError, upgraded, tunnel_endpoint,
}
use pocket_relay_client_shar.Tunnel.Codec.{TunnelMessage}
use pocket_relay_client_shar.Tunnel.Pool.{Event, success, allocate_pool}
use pocket_relay_client_shar.Tunnel.Pool.Schedules.{Completes, count, allocate_pool-Completes}
use pocket_relay_client_shar.Tunnel.Relay.{item, State, recv, poll}
use pocket_relay_client_shar.Tunnel.Relay.Life.{
  Arrival, born, arrives, arrive, Outlives, tunnel_poll-Outlives,
}
use pocket_relay_client_shar.Tunnel.Relay.Draining.{Drains, polls, polls-Drains}
use pocket_relay_client_shar.Tunnel.Session.{new_tunnel, Session, relaying, create_tunnel}
use pocket_relay_client_shar.Tunnel.Session.Outcomes.{Goes, create_tunnel-Goes}

abbrev pub at_place : ℕ → ℕ → Event
at_place place task = record { place = place; answer = success task }

-- The sockets bind in their order, and connect in another one.
abbrev pub schedule : List Event
schedule =
    at_place 0 0
    ∷ at_place 1 0
    ∷ at_place 2 0
    ∷ at_place 3 0
    ∷ at_place 2 52
    ∷ at_place 0 50
    ∷ at_place 3 53
    ∷ at_place 1 51
    ∷ []

abbrev note : TunnelMessage
note = record { index = 2; message = 9 ∷ 8 ∷ [] }

abbrev letter : TunnelMessage
letter = record { index = 0; message = 7 ∷ [] }

-- A message of the server for the third socket, and one of the game that the server can take later.
abbrev pub first_arrival : Arrival
first_arrival = record {
  rx = ready (some letter) ∷ [];
  ready = pending ∷ [];
  flushed = [];
  next = ready (item note) ∷ [];
}

abbrev pub second_arrival : Arrival
second_arrival = record { rx = []; ready = ready true ∷ []; flushed = ready true ∷ []; next = [] }

abbrev pub arrivals : List Arrival
arrivals = first_arrival ∷ second_arrival ∷ []

abbrev pub header_value : List ℕ → Option (List ℕ)
header_value text = some text

abbrev pub join : List ℕ → List ℕ → Option (List ℕ)
join url path = some (url ++ path)

-- The connection is a number.
abbrev network : ℕ → List ℕ → Headers → Exchange ℕ
network client url headers = upgraded 6

abbrev pub token : List ℕ
token = code_points "token"

abbrev pub base : List ℕ
base = code_points "http://localhost/"

abbrev pub ctx : ClientContext ℕ (List ℕ)
ctx = record { http_client = 1; base_url = base; association = some token; tunnel_port = none }

abbrev session : Outcome Session
session = create_tunnel header_value join network ctx token schedule arrivals initial

-- The message for the third socket went to its task, and that of the game was sent.
abbrev pub relayed : State
relayed = (
  record { pool = 50 ∷ 51 ∷ 52 ∷ 53 ∷ []; write_state = recv },
  record {
    rx = [];
    ready = [];
    flushed = [];
    next = [];
    taken = letter ∷ [];
    sent = letter ∷ [];
    delivered = (52, note) ∷ [];
  },
)

session_run :
    session ≡ ok (relaying relayed (record { collection = 52 ∷ 50 ∷ 53 ∷ 51 ∷ []; aborted = [] }))
unfolding create_tunnel
session_run = refl

create_tunnel-Goes_example : Goes initial arrivals session
create_tunnel-Goes_example =
    create_tunnel-Goes header_value join network ctx (base ++ tunnel_endpoint) token token schedule
      arrivals initial refl refl

abbrev pub io_other : ServerStreamError → ℕ
io_other e = 99

places : (i : ℕ) → i < 4 → 2 ≤ count schedule i
places zero h = omega arith
places (suc zero) h = omega arith
places (suc (suc zero)) h = omega arith
places (suc (suc (suc zero))) h = omega arith
places (suc (suc (suc (suc i)))) h = absurd (omega arith)

allocate_pool-Completes_example : Completes (allocate_pool schedule initial)
allocate_pool-Completes_example =
    allocate_pool-Completes schedule initial (tt, (tt, (tt, (tt, (tt, (tt, (tt, (tt, tt))))))))
      places

abbrev waiting_tunnel : State
waiting_tunnel = arrive first_arrival (new_tunnel (40 ∷ []))

tunnel_poll-Outlives_example : Outlives (40 ∷ []) (ready (item note) ∷ []) (poll 9 waiting_tunnel)
tunnel_poll-Outlives_example =
    tunnel_poll-Outlives 9 (arrives first_arrival born) (omega arith) (omega arith)

-- Two messages, with a wait before each of the answers of the connection.
abbrev slow : State
slow =
    arrive
      (record {
        rx = ready (some letter) ∷ pending ∷ ready (some note) ∷ [];
        ready = pending ∷ ready true ∷ ready true ∷ [];
        flushed = ready true ∷ pending ∷ ready true ∷ [];
        next = [];
      })
      (new_tunnel [])

polls-Drains_example : Drains (letter ∷ note ∷ []) (polls 10 3 slow)
polls-Drains_example =
    polls-Drains 9 3 slow
      (record {
        live = tt;
        open_rx = (tt, (tt, (tt, tt)));
        ok_ready = (tt, (tt, (tt, tt)));
        ok_flushed = (tt, (tt, (tt, tt)));
        quiet = refl;
        enough_ready = omega arith;
        enough_flushed = omega arith;
      })
      (omega arith) (omega arith)
