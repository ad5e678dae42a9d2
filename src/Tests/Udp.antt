-- ===== src/Tests/Udp.antt =====
-- The tunnel of src/servers/udp_tunnel.rs on concrete scripts, with a small wire format.
use pocket_relay_client_shar.Prelude.{
  ℕ, ◌≡◌, refl, true, Option, none, some, List, [], ◌∷◌, ◌==◌, if◌then◌else◌, arith,
}
use pocket_relay_client_shar.Polling.{pending, ready}
use pocket_relay_client_shar.UdpTunnel.Message.{
  TunnelMessage, initiate, initiated, forward, keep_alive, Protocol,
}
use pocket_relay_client_shar.UdpTunnel.Relay.{
  Tunnel, World, State, recv, write, poll_receive, poll_read_state,
}
use pocket_relay_client_shar.UdpTunnel.Relay.Writing.{Inv}
use pocket_relay_client_shar.UdpTunnel.Relay.KeepAlive.{
  OnlyKeepAlive, checked, keep_alive_replaces, poll_read_state_no_timeout,
}
use pocket_relay_client_shar.UdpTunnel.Relay.PendingSend.{Doomed, waits, poll_pending_send-Doomed}

abbrev serialize : ℕ → TunnelMessage → List ℕ
serialize tunnel_id (initiate association) = 0 ∷ tunnel_id ∷ association
serialize tunnel_id (initiated granted) = 1 ∷ tunnel_id ∷ granted ∷ []
serialize tunnel_id (forward index message) = 2 ∷ tunnel_id ∷ index ∷ message
serialize tunnel_id keep_alive = 3 ∷ tunnel_id ∷ []

abbrev deserialize : List ℕ → Option TunnelMessage
deserialize (ty ∷ tunnel_id ∷ index ∷ message) =
    if ty == 2
    then some (forward index message)
    else if ty == 1
    then some (initiated index)
    else some (initiate (index ∷ message))
deserialize (ty ∷ tunnel_id ∷ []) = if ty == 3 then some keep_alive else none
deserialize _ = none

abbrev pub wire : Protocol
wire = record { serialize_message = serialize; deserialize_message = deserialize }

abbrev hello : TunnelMessage
hello = forward 0 (1 ∷ 2 ∷ [])

abbrev tunnel : Tunnel
tunnel = record { tunnel_id = 77; pool = 40 ∷ 41 ∷ []; write_state = recv; last_keep_alive = 500 }

-- A message to send, and a keep-alive and a message for the second socket that arrive, long after the
-- last keep-alive.
abbrev world : World
world = record {
  rx = ready (some hello) ∷ [];
  send_ready = ready true ∷ ready true ∷ ready true ∷ ready true ∷ [];
  send = ready true ∷ ready true ∷ ready true ∷ ready true ∷ [];
  ticks = true ∷ [];
  elapse = 90000 ∷ [];
  now = 1000;
  recv_ready = ready true ∷ ready true ∷ [];
  recv = ready (some (3 ∷ 77 ∷ [])) ∷ ready (some (2 ∷ 77 ∷ 1 ∷ 9 ∷ [])) ∷ [];
  taken = [];
  sent = [];
  delivered = [];
}

abbrev start : State
start = (tunnel, world)

start-Inv : Inv start
start-Inv = record {
  live = tt;
  timely = omega arith;
  sends_ok = (refl, (refl, (refl, (refl, tt))));
  sends_enough = omega arith;
}

poll_read_state_no_timeout_example :
    poll_read_state wire start ≡ poll_receive wire (tunnel, checked world)
poll_read_state_no_timeout_example = poll_read_state_no_timeout wire tunnel world (omega arith)

-- The socket is ready, then not, twice more not, and then ready again.
poll_pending_send-Doomed_example : Doomed wire 9 3 (
  record tunnel { write_state = write (some hello) },
  record world {
    send_ready = ready true ∷ waits 2 (ready true ∷ []);
    send = pending ∷ [];
    recv_ready = [];
  },
)
poll_pending_send-Doomed_example =
    poll_pending_send-Doomed wire 8 2 tunnel world hello [] [] (omega arith)

keep_alive_replaces_example : OnlyKeepAlive wire 77 [] (
    poll_receive wire (
      record tunnel { write_state = write (some hello) },
      record world { recv_ready = ready true ∷ []; recv = ready (some (3 ∷ 77 ∷ [])) ∷ [] },
    ))
keep_alive_replaces_example = keep_alive_replaces wire tunnel world hello (3 ∷ 77 ∷ []) [] [] refl
