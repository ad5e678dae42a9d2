-- ===== src/UdpTunnel/Socket/Agreement.antt =====
-- The two `Socket` futures against each other: that of src/servers/udp_tunnel.rs, which splits the rest of
-- a message off, and that of src/servers/tunnel.rs, which slices it.
use mathlib.Core.Path.{fun_ext}
use pocket_relay_client_shar.Prelude.{
  ℕ, zero, suc, ◌≡◌, refl, ap, ◌∙◌, Bool, Bool-cases, inl, inr, true, false, Option, none, some,
  List, [], ◌∷◌, ltb, ◌==◌, length,
}
use pocket_relay_client_shar.Polling.{Poll, pending, ready, Run}
use pocket_relay_client_shar.Tunnel.Codec.{TunnelMessage}
use pocket_relay_client_shar.UdpTunnel.Message
use pocket_relay_client_shar.Tunnel.Socket as Generic
use pocket_relay_client_shar.Tunnel.Socket.{
  SocketWriteState, SocketReadState, recv, write, continue, World, Socket, State, min_of,
  poll_socket, write_next, read_next, and_then,
}
use pocket_relay_client_shar.Tunnel.Socket.Translate.{
  translate, translate_run, bytes_of, forwarded, poll-translate,
}
use pocket_relay_client_shar.UdpTunnel.Socket.{
  UdpState, split_off, poll_write_recv, poll_write_message, poll_write_state, write_loop,
  poll_read_state, read_loop, poll_udp_socket,
}

abbrev payload : List ℕ → List ℕ
payload bytes = bytes

recv_step :
    (self : Socket) (w : World (List ℕ) Message.TunnelMessage) (rx : List (Poll (Option (List ℕ))))
    → poll_write_recv (self, record w { rx = rx })
      ≡ Generic.poll_write_recv payload (self, record w { rx = rx })
unfolding poll_write_recv Generic.poll_write_recv
recv_step self w [] = refl
recv_step self w (pending ∷ rx) = refl
recv_step self w (ready none ∷ rx) = refl
recv_step self w (ready (some m) ∷ rx) = refl

-- The steps differ in what they leave in the write state, which the round replaces.
message_step :
    (rounds : UdpState → Run UdpState) (message : List ℕ) (self : Socket)
    (w : World (List ℕ) Message.TunnelMessage) (send : List (Poll (Option ℕ)))
    → write_next rounds (poll_write_message message (self, record w { send = send }))
      ≡ write_next rounds (Generic.poll_write_message message (self, record w { send = send }))
unfolding poll_write_message Generic.poll_write_message split_off write_next
message_step rounds message self w [] = refl
message_step rounds message self w (pending ∷ send) = refl
message_step rounds message self w (ready none ∷ send) = refl
message_step rounds message self w (ready (some n) ∷ send) =
    let count = min_of n (length message) in
    elim (Bool-cases (count == length message)) [
      | inl e ↦ rw e
      | inr e ↦ elim (Bool-cases (ltb (length message) count)) [
        | inl l ↦ rw (e, l)
        | inr l ↦ rw (e, l)
      ]
    ]

write_step :
    (rounds : UdpState → Run UdpState) (ws : SocketWriteState) (self : Socket)
    (w : World (List ℕ) Message.TunnelMessage)
    → let s : UdpState = (record self { write_state = ws }, w) in
      write_next rounds (poll_write_state s)
      ≡ write_next rounds (Generic.poll_write_state payload s)
unfolding poll_write_state Generic.poll_write_state
write_step rounds recv self w =
    ap (write_next rounds) (recv_step (record self { write_state = recv }) w w.rx)
write_step rounds (write message) self w =
    message_step rounds message (record self { write_state = write message }) w w.send
write_step rounds SocketWriteState.stop self w = refl

write_loop-agrees :
    (fuel : ℕ) (s : UdpState) → write_loop fuel s ≡ Generic.write_loop payload fuel s
unfolding write_loop Generic.write_loop
write_loop-agrees zero s = refl
write_loop-agrees (suc fuel) s =
    write_step (write_loop fuel) s.0.write_state s.0 s.1
    ∙ ap (λ r. write_next r (Generic.poll_write_state payload s)) (fun_ext (write_loop-agrees fuel))

read_step :
    (self : Socket) (w : World (List ℕ) Message.TunnelMessage)
    (script : List (Poll (Option (List ℕ)))) (accepts : List Bool)
    → poll_read_state (self, record w { recv = script; accepts = accepts })
      ≡ Generic.poll_read_state Message.forward
          (self, record w { recv = script; accepts = accepts })
unfolding poll_read_state Generic.poll_read_state
read_step self w [] accepts = refl
read_step self w (pending ∷ script) accepts = refl
read_step self w (ready none ∷ script) accepts = refl
read_step self w (ready (some bytes) ∷ script) [] = refl
read_step self w (ready (some bytes) ∷ script) (false ∷ accepts) = refl
read_step self w (ready (some bytes) ∷ script) (true ∷ accepts) = refl

read_loop-agrees :
    (fuel : ℕ) (s : UdpState) → read_loop fuel s ≡ Generic.read_loop Message.forward fuel s
unfolding read_loop Generic.read_loop
read_loop-agrees zero s = refl
read_loop-agrees (suc fuel) s =
    ap (read_next (read_loop fuel)) (read_step s.0 s.1 s.1.recv s.1.accepts)
    ∙ ap (λ r. read_next r (Generic.poll_read_state Message.forward s))
        (fun_ext (read_loop-agrees fuel))

pub poll_udp_socket-agrees :
    (fuel : ℕ) (s : UdpState) → poll_udp_socket fuel s ≡ Generic.poll payload Message.forward fuel s
unfolding poll_udp_socket Generic.poll
poll_udp_socket-agrees fuel s =
    ap (λ r. and_then r (read_loop fuel)) (write_loop-agrees fuel s)
    ∙ ap (and_then (Generic.write_loop payload fuel s)) (fun_ext (read_loop-agrees fuel))

-- The `Socket` of src/servers/udp_tunnel.rs does what that of src/servers/tunnel.rs does: on the same
-- answers of the channels and of the local network, with the bytes of the messages in place of the
-- messages, its `poll` ends alike, in the corresponding state, with the same sends, and has given the
-- tunnel the forwarded messages in place of the messages.
pub poll_udp_socket-translate :
    (fuel : ℕ) (s : State TunnelMessage TunnelMessage)
    → poll_udp_socket fuel (translate bytes_of forwarded s)
      ≡ translate_run bytes_of forwarded (poll_socket fuel s)
unfolding poll_socket
poll_udp_socket-translate fuel s =
    poll_udp_socket-agrees fuel (translate bytes_of forwarded s)
    ∙ poll-translate bytes_of forwarded bytes_of payload
        (λ index bytes. record { index = index; message = bytes }) Message.forward (λ m. refl)
        (λ i bytes. refl) fuel s
