-- ===== src/Tests/Systems.antt =====
-- The tunnel of src/servers/tunnel.rs with its sockets, on concrete turns.
use pocket_relay_client_shar.Prelude.{
  All, append-nil, ℕ, ◌≡◌, refl, true, Option, none, some, get_elem?, List, [], ◌∷◌, Outcome, ok,
  arith,
}
use pocket_relay_client_shar.Polling.{ready}
use pocket_relay_client_shar.Tunnel.Codec.{TunnelMessage}
use pocket_relay_client_shar.Tunnel.Relay.{item}
use mathlib.Core.Option
use pocket_relay_client_shar.Tunnel.System
use pocket_relay_client_shar.Tunnel.System.{
  System, SocketState, Turn, poll_tunnel, poll_socket_at, from, new_socket, new_system,
}
use pocket_relay_client_shar.Tunnel.System.EndToEnd.{Passes, system_run-Passes}
use pocket_relay_client_shar.Framing.{concat}
use pocket_relay_client_shar.Tunnel.System.Channels.{wrapped}
use pocket_relay_client_shar.Tunnel.System.Flow.{answers, heard}
use pocket_relay_client_shar.Tunnel.Codec.{default}
use pocket_relay_client_shar.Tunnel.Codec.RoundTrip.{IsLong, encode_all, tunnel_receive-encode_all}
use pocket_relay_client_shar.Tunnel.System.Wire.{system_run-carries}
use pocket_relay_client_shar.Tunnel.System.Fifo.{IsPrefix, items, payloads, system_run-IsPrefix}

-- A datagram of the third socket's game goes to the server, and a message comes for the second socket.
abbrev traffic : List Turn
traffic =
    poll_socket_at 2 [] (ready (some (5 ∷ 6 ∷ [])) ∷ [])
    ∷ poll_tunnel (ready true ∷ []) (ready true ∷ [])
        (ready (item (record { index = 1; message = 3 ∷ 4 ∷ [] })) ∷ [])
    ∷ poll_socket_at 1 (ready (some 2) ∷ []) []
    ∷ []

-- What the tunnel has sent, and what the second socket has.
abbrev seen : Outcome (Option System) → List TunnelMessage × Option (List (List ℕ))
seen (ok (some s)) = (s.tunnel.1.sent, Option.map (λ c. c.1.sent) (get_elem? s.sockets 1))
seen _ = ([], none)

traffic-run :
    seen (System.run traffic new_system)
    ≡ (record { index = 2; message = 5 ∷ 6 ∷ [] } ∷ [], some ((3 ∷ 4 ∷ []) ∷ []))
unfolding System.run
traffic-run = refl

system_run-Passes_example : Passes traffic (System.run traffic new_system)
system_run-Passes_example = system_run-Passes traffic

abbrev after : Outcome (Option System) → System
after (ok (some s)) = s
after _ = new_system

abbrev settled : System
settled = after (System.run traffic new_system)

traffic-settled : System.run traffic new_system ≡ ok (some settled)
unfolding System.run
traffic-settled = refl

abbrev second_of : List SocketState → SocketState
second_of (first ∷ second ∷ rest) = second
second_of _ = new_socket 1

settled-second : get_elem? settled.sockets 1 ≡ some (second_of settled.sockets)
unfolding System.run
settled-second = refl

system_run-IsPrefix_example :
    IsPrefix
      (concat (second_of settled.sockets).1.sent)
      (payloads (from 1 (items (answers traffic))))
    × IsPrefix (from 1 settled.tunnel.1.sent) (wrapped 1 (heard 1 traffic))
system_run-IsPrefix_example =
    system_run-IsPrefix traffic settled 1 (second_of settled.sockets) traffic-settled settled-second
      (omega arith)

abbrev incoming : List TunnelMessage
incoming = record { index = 1; message = 3 ∷ 4 ∷ [] } ∷ []

incoming-IsLong : All IsLong incoming
incoming-IsLong =
    ((record { index_fits = omega arith; length_fits = omega arith }, omega arith), tt)

abbrev bytes : List ℕ
bytes = encode_all incoming []

system_run-carries_example :
    IsPrefix (concat (second_of settled.sockets).1.sent) (payloads (from 1 incoming))
system_run-carries_example =
    system_run-carries traffic settled 1 (second_of settled.sockets) incoming (bytes ∷ []) default
      [] incoming traffic-settled settled-second (omega arith) incoming-IsLong (append-nil bytes)
      (tunnel_receive-encode_all incoming (bytes ∷ []) incoming-IsLong (append-nil bytes))
      ([], refl)
