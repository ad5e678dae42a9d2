-- ===== src/Tests/UdpSessions.antt =====
-- `create_tunnel` of src/servers/udp_tunnel.rs with its pool and its future, on a concrete session.
use pocket_relay_client_shar.Prelude.{
  ℕ, zero, suc, ◌≡◌, refl, true, none, some, List, [], ◌∷◌, Outcome, ok, arith,
}
use pocket_relay_client_shar.Polling.{ready}
use pocket_relay_client_shar.Tasks.{initial}
use pocket_relay_client_shar.Tunnel.Pool.{allocate_pool}
use pocket_relay_client_shar.UdpTunnel.Message.{TunnelMessage, forward}
use pocket_relay_client_shar.UdpTunnel.Handshake.{Exchange, timed_out, received}
use pocket_relay_client_shar.UdpTunnel.Service
use pocket_relay_client_shar.UdpTunnel.Relay.{State, recv, poll}
use pocket_relay_client_shar.UdpTunnel.Relay.Life.{
  Arrival, new_tunnel, arrive, born, arrives, Outlives, udp_poll-Outlives,
}
use pocket_relay_client_shar.UdpTunnel.Session.{Network, Session, relaying, create_tunnel}
use pocket_relay_client_shar.UdpTunnel.Session.Outcomes.{Goes, summary, udp_create_tunnel-Goes}
use pocket_relay_client_shar.Tests.Sessions.{schedule}
use pocket_relay_client_shar.Tests.Udp.{wire}

-- A message of a game, and later a keep-alive of the server, behind a message for the second socket.
abbrev letter : TunnelMessage
letter = forward 0 (7 ∷ [])

abbrev pub first_arrival : Arrival
first_arrival = record {
  rx = ready (some letter) ∷ [];
  send_ready = ready true ∷ [];
  send = ready true ∷ [];
  ticks = [];
  elapse = [];
  recv_ready = [];
  recv = [];
}

abbrev pub second_arrival : Arrival
second_arrival = record {
  rx = [];
  send_ready = ready true ∷ [];
  send = ready true ∷ [];
  ticks = true ∷ [];
  elapse = 11000 ∷ [];
  recv_ready = ready true ∷ ready true ∷ [];
  recv = ready (some (2 ∷ 9 ∷ 1 ∷ 5 ∷ [])) ∷ ready (some (3 ∷ 9 ∷ [])) ∷ [];
}

-- The server answers the second attempt, with the number 9.
abbrev exchanges : List ℕ → ℕ → Exchange
exchanges datagram zero = timed_out
exchanges datagram (suc n) = received (1 ∷ 0 ∷ 9 ∷ [])

abbrev pub network : Network
network = record {
  bind_error = none;
  connect_error = λ host port. none;
  exchanges = exchanges;
  now = 1000;
}

abbrev pub host : List ℕ
host = 104 ∷ []

abbrev pub token : List ℕ
token = 116 ∷ []

abbrev session : Outcome Session
session =
    create_tunnel wire host 9032 token network schedule (first_arrival ∷ second_arrival ∷ [])
      initial

abbrev pub relayed : State
relayed = (
  record {
    tunnel_id = 9;
    pool = 50 ∷ 51 ∷ 52 ∷ 53 ∷ [];
    write_state = recv;
    last_keep_alive = 12000;
  },
  record {
    rx = [];
    send_ready = [];
    send = [];
    ticks = [];
    elapse = [];
    now = 12000;
    recv_ready = [];
    recv = [];
    taken = letter ∷ [];
    sent = (2 ∷ 9 ∷ 0 ∷ 7 ∷ []) ∷ (3 ∷ 9 ∷ []) ∷ [];
    delivered = (51, 5 ∷ []) ∷ [];
  },
)

session_run :
    session ≡ ok (relaying relayed (record { collection = 52 ∷ 50 ∷ 53 ∷ 51 ∷ []; aborted = [] }))
unfolding create_tunnel
session_run = refl

udp_create_tunnel-Goes_example :
    Goes wire host 9032 token network initial
      (first_arrival ∷ second_arrival ∷ [])
      (Service.create_tunnel wire host 9032 token
        (summary wire host 9032 token network (allocate_pool schedule initial)))
      session
udp_create_tunnel-Goes_example =
    udp_create_tunnel-Goes wire host 9032 token network schedule
      (first_arrival ∷ second_arrival ∷ []) initial
      (((refl, tt), omega arith), (((refl, tt), omega arith), tt))

abbrev waiting_tunnel : State
waiting_tunnel = arrive second_arrival (new_tunnel 9 (40 ∷ 41 ∷ []) 1000)

udp_poll-Outlives_example :
    Outlives wire 9 (40 ∷ 41 ∷ []) second_arrival.recv (poll wire 9 waiting_tunnel)
udp_poll-Outlives_example =
    udp_poll-Outlives wire 9 9 (arrives second_arrival ((refl, tt), omega arith) (born 1000))
      (omega arith) (omega arith)
