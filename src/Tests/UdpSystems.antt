-- ===== src/Tests/UdpSystems.antt =====
-- The tunnel of src/servers/udp_tunnel.rs with its sockets, on concrete turns.
use pocket_relay_client_shar.Prelude.{
  ℕ, ◌≡◌, refl, true, Option, none, some, get_elem?, List, [], ◌∷◌, Outcome, ok, arith,
}
use pocket_relay_client_shar.Polling.{ready}
use mathlib.Core.Option
use pocket_relay_client_shar.UdpTunnel.Relay.Life.{Arrival}
use pocket_relay_client_shar.UdpTunnel.System
use pocket_relay_client_shar.UdpTunnel.System.{
  System, Turn, poll_tunnel, poll_socket_at, new_system,
}
use pocket_relay_client_shar.UdpTunnel.System.EndToEnd.{Passes, udp_system_run-Passes}
use pocket_relay_client_shar.Framing.{concat}
use pocket_relay_client_shar.UdpTunnel.Socket.{UdpState}
use pocket_relay_client_shar.Tunnel.System.{new_socket}
use pocket_relay_client_shar.Tunnel.System.Fifo.{IsPrefix}
use pocket_relay_client_shar.UdpTunnel.System.{from}
use pocket_relay_client_shar.UdpTunnel.System.Flow.{answers}
use pocket_relay_client_shar.UdpTunnel.System.Fifo.{
  payloads, items, Forwarded, udp_system_run-Forwarded,
}
use pocket_relay_client_shar.Tests.Udp.{wire}

-- A message for the second socket comes, and the socket of the tunnel takes two datagrams.
abbrev arrival : Arrival
arrival = record {
  rx = [];
  send_ready = ready true ∷ ready true ∷ [];
  send = ready true ∷ ready true ∷ [];
  ticks = [];
  elapse = [];
  recv_ready = ready true ∷ [];
  recv = ready (some (2 ∷ 9 ∷ 1 ∷ 3 ∷ 4 ∷ [])) ∷ [];
}

-- A datagram of the third socket's game goes to the server, and a message goes to the second game.
abbrev traffic : List Turn
traffic =
    poll_socket_at 2 [] (ready (some (5 ∷ 6 ∷ [])) ∷ [])
    ∷ poll_tunnel arrival
    ∷ poll_socket_at 1 (ready (some 2) ∷ []) []
    ∷ []

-- What the tunnel has sent, and what the second socket has.
abbrev seen : Outcome (Option System) → List (List ℕ) × Option (List (List ℕ))
seen (ok (some s)) = (s.tunnel.1.sent, Option.map (λ c. c.1.sent) (get_elem? s.sockets 1))
seen _ = ([], none)

traffic-run :
    seen (System.run wire traffic (new_system 9 1000))
    ≡ ((2 ∷ 9 ∷ 2 ∷ 5 ∷ 6 ∷ []) ∷ [], some ((3 ∷ 4 ∷ []) ∷ []))
unfolding System.run
traffic-run = refl

udp_system_run-Passes_example : Passes wire 9 traffic (System.run wire traffic (new_system 9 1000))
udp_system_run-Passes_example =
    udp_system_run-Passes wire 9 1000 traffic (tt, (((refl, (refl, tt)), omega arith), (tt, tt)))

abbrev after : Outcome (Option System) → System
after (ok (some s)) = s
after _ = new_system 9 1000

abbrev settled : System
settled = after (System.run wire traffic (new_system 9 1000))

traffic-settled : System.run wire traffic (new_system 9 1000) ≡ ok (some settled)
unfolding System.run
traffic-settled = refl

abbrev third_of : List UdpState → UdpState
third_of (first ∷ second ∷ third ∷ rest) = third
third_of _ = new_socket 2

settled-third : get_elem? settled.sockets 2 ≡ some (third_of settled.sockets)
unfolding System.run
settled-third = refl

udp_system_run-Forwarded_example :
    IsPrefix
      (concat (third_of settled.sockets).1.sent)
      (concat (payloads (from 2 (items wire (answers traffic)))))
    × Forwarded wire 9 traffic 2 settled.tunnel.1.sent
udp_system_run-Forwarded_example =
    udp_system_run-Forwarded wire 9 1000 traffic settled 2 (third_of settled.sockets)
      (tt, (((refl, (refl, tt)), omega arith), (tt, tt))) traffic-settled settled-third
      (omega arith)
