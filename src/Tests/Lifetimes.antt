-- ===== src/Tests/Lifetimes.antt =====
-- The tunnel services of src/servers/tunnel.rs and src/servers/udp_tunnel.rs over several attempts.
use pocket_relay_client_shar.Prelude.{
  ℕ, zero, suc, ◌≡◌, refl, some, List, [], ◌∷◌, ◌++◌, Option, ok, arith,
}
use pocket_relay_client_shar.Reconnect.Sessions.{Serves, within}
use pocket_relay_client_shar.Tasks.{initial}
use pocket_relay_client_shar.Api.Requests.{
  Headers, Exchange, no_response, upgraded, tunnel_endpoint,
}
use pocket_relay_client_shar.Tunnel.Pool.{Event}
use pocket_relay_client_shar.Tunnel.Relay.Life.{Arrival}
use pocket_relay_client_shar.Tunnel.Service
use pocket_relay_client_shar.Tunnel.Service.Sessions as Tcp
use pocket_relay_client_shar.Tunnel.Session.{relaying}
use pocket_relay_client_shar.UdpTunnel.Relay.Life as UdpLife
use pocket_relay_client_shar.UdpTunnel.Service as UdpService
use pocket_relay_client_shar.UdpTunnel.Service.Sessions as Udp
use pocket_relay_client_shar.UdpTunnel.Session as UdpSession
use pocket_relay_client_shar.Tests.Sessions.{
  schedule, arrivals, header_value, join, token, base, ctx, relayed, io_other,
}
use pocket_relay_client_shar.Tests.Udp.{wire}
use pocket_relay_client_shar.Tests.UdpSessions
use pocket_relay_client_shar.Tests.UdpSessions.{host}

-- The first request fails, the others are answered.
abbrev requests : ℕ → ℕ → List ℕ → Headers → Exchange ℕ
requests zero client url headers = no_response 5
requests (suc n) client url headers = upgraded 6

abbrev all_schedules : ℕ → List Event
all_schedules n = schedule

abbrev all_arrivals : ℕ → List Arrival
all_arrivals n = arrivals

tunnel_server_run :
    Tcp.start_tunnel_server io_other header_value join requests all_schedules all_arrivals ctx 3
      initial
    ≡ ok (
        within
          (relaying relayed (record { collection = 52 ∷ 50 ∷ 53 ∷ 51 ∷ []; aborted = [] }))
          (1000 ∷ []))
unfolding Tcp.start_tunnel_server
tunnel_server_run = refl

start_tunnel_server-Serves_example :
    Serves
      (Tcp.session io_other header_value join requests all_schedules all_arrivals ctx token)
      initial
      (Service.start_tunnel_server ctx (λ client base_url association.
        Tcp.met io_other header_value join requests all_schedules all_arrivals ctx
          (base ++ tunnel_endpoint)
          token
          token
          initial))
      3
      (Tcp.start_tunnel_server io_other header_value join requests all_schedules all_arrivals ctx 3
        initial)
start_tunnel_server-Serves_example =
    Tcp.start_tunnel_server-Serves io_other header_value join requests all_schedules all_arrivals
      ctx (base ++ tunnel_endpoint) token token initial 3 refl refl refl

-- The first bind fails.
abbrev networks : ℕ → UdpSession.Network
networks zero = record UdpSessions.network { bind_error = some 98 }
networks (suc n) = UdpSessions.network

abbrev udp_arrivals : ℕ → List UdpLife.Arrival
udp_arrivals n = UdpSessions.first_arrival ∷ UdpSessions.second_arrival ∷ []

abbrev host_of : List ℕ → Option (List ℕ)
host_of url = some host

udp_tunnel_server_run :
    Udp.start_udp_tunnel_server wire networks all_schedules udp_arrivals host_of ctx 9032 3 initial
    ≡ ok (
        within
          (UdpSession.relaying UdpSessions.relayed
            (record { collection = 52 ∷ 50 ∷ 53 ∷ 51 ∷ []; aborted = [] }))
          (1000 ∷ []))
unfolding Udp.start_udp_tunnel_server
udp_tunnel_server_run = refl

start_udp_tunnel_server-Serves_example :
    Serves
      (Udp.session wire networks all_schedules udp_arrivals host 9032 token)
      initial
      (UdpService.start_udp_tunnel_server wire host_of ctx 9032
        (Udp.met wire networks all_schedules udp_arrivals host 9032 token initial))
      3
      (Udp.start_udp_tunnel_server wire networks all_schedules udp_arrivals host_of ctx 9032 3
        initial)
start_udp_tunnel_server-Serves_example =
    Udp.start_udp_tunnel_server-Serves wire networks all_schedules udp_arrivals host 9032 token
      host_of ctx initial 3 refl refl
      (λ n. (((refl, tt), omega arith), (((refl, tt), omega arith), tt)))
