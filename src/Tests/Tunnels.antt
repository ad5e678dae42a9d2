-- ===== src/Tests/Tunnels.antt =====
-- The future `Tunnel` of src/servers/tunnel.rs and both futures `Socket` on concrete scripts.
use pocket_relay_client_shar.Prelude.{ℕ, ◌≡◌, refl, true, some, List, [], ◌∷◌, arith}
use pocket_relay_client_shar.Polling.{ready, rests}
use pocket_relay_client_shar.Tunnel.Codec.{TunnelMessage}
use pocket_relay_client_shar.Tunnel.Relay
use pocket_relay_client_shar.Tunnel.Relay.{ping}
use pocket_relay_client_shar.Tunnel.Socket
use pocket_relay_client_shar.Tunnel.Socket.{poll_socket}
use pocket_relay_client_shar.UdpTunnel.Socket.{poll_udp_socket}
use pocket_relay_client_shar.Tunnel.Socket.Translate.{translate, translate_run, bytes_of, forwarded}
use pocket_relay_client_shar.UdpTunnel.Socket.Agreement.{poll_udp_socket-translate}
use pocket_relay_client_shar.UdpTunnel.Message.{forward}
use pocket_relay_client_shar.Tunnel.Socket.Stream
use pocket_relay_client_shar.Tunnel.Socket.Stream.{socket_poll-Ends}
use pocket_relay_client_shar.Tunnel.Socket.Forward.{Forwards, poll-Forwards}

abbrev hello : TunnelMessage
hello = record { index = 0; message = 1 ∷ 2 ∷ [] }

abbrev tunnel : Relay.Tunnel
tunnel = record { pool = 40 ∷ 41 ∷ []; write_state = Relay.recv }

-- A message to send, and a keep-alive and a message for the second socket that arrive.
abbrev relay_world : Relay.World
relay_world = record {
  rx = ready (some hello) ∷ [];
  ready = ready true ∷ ready true ∷ [];
  flushed = ready true ∷ [];
  next = ready (Relay.item ping) ∷ ready (Relay.item (record { index = 1; message = 3 ∷ [] })) ∷ [];
  taken = [];
  sent = [];
  delivered = [];
}

abbrev relay_start : Relay.State
relay_start = (tunnel, relay_world)

relay_run :
    Relay.poll 8 relay_start
    ≡ rests (
      record tunnel { write_state = Relay.flush },
      record {
        rx = [];
        ready = [];
        flushed = [];
        next = [];
        taken = hello ∷ [];
        sent = hello ∷ ping ∷ [];
        delivered = (41, record { index = 1; message = 3 ∷ [] }) ∷ [];
      },
    )
unfolding Relay.poll
relay_run = refl

-- A send that takes one byte of two, then the other, and a datagram that arrives.
abbrev socket_world : Socket.World TunnelMessage TunnelMessage
socket_world = record {
  rx = ready (some hello) ∷ [];
  send = ready (some 1) ∷ ready (some 5) ∷ [];
  recv = ready (some (7 ∷ 8 ∷ [])) ∷ [];
  accepts = true ∷ [];
  taken = [];
  sent = [];
  given = [];
}

abbrev socket_start : Socket.State TunnelMessage TunnelMessage
socket_start = (record { index = 3; write_state = Socket.recv }, socket_world)

abbrev payload : TunnelMessage → List ℕ
payload m = m.message

abbrev wrap : ℕ → List ℕ → TunnelMessage
wrap index message = record { index = index; message = message }

socket_poll-Ends_example : Stream.Ends payload (Socket.poll payload wrap 9 socket_start)
socket_poll-Ends_example =
    socket_poll-Ends payload wrap 9 socket_start (record { live = tt; ledger = refl })

poll-Forwards_example : Forwards wrap socket_start (Socket.poll payload wrap 9 socket_start)
poll-Forwards_example = poll-Forwards wrap payload 9 socket_start (omega arith) (omega arith)

poll_udp_socket-translate_example :
    poll_udp_socket 9 (translate bytes_of forwarded socket_start)
    ≡ translate_run bytes_of forwarded (poll_socket 9 socket_start)
poll_udp_socket-translate_example = poll_udp_socket-translate 9 socket_start

-- The second send takes what the first has left, and the datagram is forwarded.
udp_socket_run :
    poll_udp_socket 9 (translate bytes_of forwarded socket_start)
    ≡ rests (
      record { index = 3; write_state = Socket.recv },
      record {
        rx = [];
        send = [];
        recv = [];
        accepts = [];
        taken = (1 ∷ 2 ∷ []) ∷ [];
        sent = (1 ∷ []) ∷ (2 ∷ []) ∷ [];
        given = forward 3 (7 ∷ 8 ∷ []) ∷ [];
      },
    )
unfolding poll_udp_socket
udp_socket_run = refl
