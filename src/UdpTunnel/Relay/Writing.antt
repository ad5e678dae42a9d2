-- ===== src/UdpTunnel/Relay/Writing.antt =====
-- The write half of the UDP tunnel on a socket that takes a datagram whenever it said that it is ready.
use mathlib.Core.List.{map-append}
use pocket_relay_client_shar.Prelude.{
  ℕ, zero, suc, ◌≤◌, ◌≡◌, refl, sym, ap, ◌∙◌, Bool, true, false, Option, none, some, List, [], ◌∷◌,
  ◌++◌, map, append-nil, append_assoc, length, All, Outcome, ok, panic, arith,
}
use pocket_relay_client_shar.Polling.{Poll, pending, ready, Run, rests, stops, panics, starves}
use pocket_relay_client_shar.UdpTunnel.Message.{TunnelMessage, Protocol}
use pocket_relay_client_shar.UdpTunnel.Relay.{
  TunnelWriteState, recv, write, World, Tunnel, State, poll_write_state, poll_write_recv,
  poll_write_message, set_write_state, write_loop, write_next,
}
use pocket_relay_client_shar.UdpTunnel.Relay.KeepAlive.{IsTimely}

abbrev pub in_flight : TunnelWriteState → List TunnelMessage
in_flight recv = []
in_flight (write none) = []
in_flight (write (some m)) = m ∷ []
in_flight TunnelWriteState.stop = []

-- The states in which `poll_write_state` can go on.
abbrev pub IsLive : TunnelWriteState → Type 0
IsLive recv = Unit {0}
IsLive (write none) = ⊥
IsLive (write (some m)) = Unit {0}
IsLive TunnelWriteState.stop = ⊥

-- The tunnel is live, its clock has not gone back, and each `Ok` of `poll_send_ready` is followed by
-- an `Ok` of `poll_send`.
pub record Inv (s : State) : Type 0 where
  pub live : IsLive s.0.write_state
  pub timely : IsTimely s
  pub sends_ok : All (λ p. p ≡ ready true) s.1.send
  pub sends_enough : length s.1.send_ready ≤ length s.1.send

module _ (protocol : Protocol) where
  open protocol use {serialize_message, deserialize_message}

  abbrev pub datagrams : ℕ → List TunnelMessage → List (List ℕ)
  datagrams tunnel_id = map (serialize_message tunnel_id)

  -- From `s` to `t` the messages `new` came from the channel, and they and the one that was being
  -- written were sent in their order, each once, but for the one that is being written now.
  pub record Sends (s t : State) : Type 0 where
    pub new : List TunnelMessage
    pub id_eq : t.0.tunnel_id ≡ s.0.tunnel_id
    pub taken_eq : t.1.taken ≡ s.1.taken ++ new
    pub sent_eq :
        t.1.sent ++ datagrams s.0.tunnel_id (in_flight t.0.write_state)
        ≡ (s.1.sent ++ datagrams s.0.tunnel_id (in_flight s.0.write_state))
          ++ datagrams s.0.tunnel_id new

  pub Sends-refl : (s : State) → Sends s s
  Sends-refl s = record {
    new = [];
    id_eq = refl;
    taken_eq = sym (append-nil s.1.taken);
    sent_eq = sym (append-nil (s.1.sent ++ datagrams s.0.tunnel_id (in_flight s.0.write_state)));
  }

  abbrev pub Good : State → State → Type 0
  Good s t = Inv t × Sends s t

  abbrev pub AfterWrite : State → Outcome (Poll TunnelWriteState × State) → Type 0
  AfterWrite s panic = ⊥
  AfterWrite s (ok (pending, t)) = Good s t
  AfterWrite s (ok (ready TunnelWriteState.stop, t)) = Unit {0}
  AfterWrite s (ok (ready recv, t)) = Good s (set_write_state recv t)
  AfterWrite s (ok (ready (write m), t)) = Good s (set_write_state (write m) t)

  take_sent :
      (id : ℕ) (sent base : List (List ℕ)) (new : List TunnelMessage) (m : TunnelMessage)
      → sent ++ [] ≡ base ++ datagrams id new
      → sent ++ datagrams id (m ∷ []) ≡ base ++ datagrams id (new ++ (m ∷ []))
  take_sent id sent base new m e =
      ap (λ l. l ++ datagrams id (m ∷ [])) (sym (append-nil sent) ∙ e)
      ∙ append_assoc base (datagrams id new) (datagrams id (m ∷ []))
      ∙ ap (λ l. base ++ l) (sym (map-append (serialize_message id) new (m ∷ [])))

  recv_step :
      (s : State) (self : Tunnel) (w : World) (rx : List (Poll (Option TunnelMessage)))
      → Good s (record self { write_state = recv }, record w { rx = rx })
      → AfterWrite s (poll_write_recv (record self { write_state = recv }, record w { rx = rx }))
  unfolding poll_write_recv
  recv_step s self w [] (v, l) = (ground arith, ground arith)
  recv_step s self w (pending ∷ rx) (v, l) = (ground arith, ground arith)
  recv_step s self w (ready none ∷ rx) (v, l) = tt
  recv_step s self w (ready (some m) ∷ rx) (v, l) = (
    record { live = tt; timely = v.timely; sends_ok = v.sends_ok; sends_enough = v.sends_enough },
    record {
      new = l.new ++ (m ∷ []);
      id_eq = l.id_eq;
      taken_eq = ap (λ t. t ++ (m ∷ [])) l.taken_eq ∙ append_assoc s.1.taken l.new (m ∷ []);
      sent_eq = take_sent s.0.tunnel_id w.sent _ l.new m l.sent_eq;
    },
  )

  message_step :
      (s : State) (self : Tunnel) (w : World) (m : TunnelMessage) (readies sends : List (Poll Bool))
      → Good s (
        record self { write_state = write (some m) },
        record w { send_ready = readies; send = sends },
      )
      → AfterWrite s (
          poll_write_message protocol (some m) (
            record self { write_state = write (some m) },
            record w { send_ready = readies; send = sends },
          ))
  unfolding poll_write_message
  message_step s self w m [] sends (v, l) = (v, l)
  message_step s self w m (pending ∷ readies) sends (v, l) = (
    record {
      live = tt;
      timely = v.timely;
      sends_ok = v.sends_ok;
      sends_enough = omega (arith, v.sends_enough);
    },
    record { new = l.new; id_eq = l.id_eq; taken_eq = l.taken_eq; sent_eq = l.sent_eq },
  )
  message_step s self w m (ready false ∷ readies) sends (v, l) = tt
  message_step s self w m (ready true ∷ readies) [] (v, l) = absurd (omega (arith, v.sends_enough))
  message_step s self w m (ready true ∷ readies) (pending ∷ sends) (v, l) = cc (v.sends_ok.0)
  message_step s self w m (ready true ∷ readies) (ready false ∷ sends) (v, l) = cc (v.sends_ok.0)
  message_step s self w m (ready true ∷ readies) (ready true ∷ sends) (v, l) = (
    record {
      live = tt;
      timely = v.timely;
      sends_ok = v.sends_ok.1;
      sends_enough = omega (arith, v.sends_enough);
    },
    record {
      new = l.new;
      id_eq = l.id_eq;
      taken_eq = l.taken_eq;
      sent_eq = rw l.id_eq (append-nil (w.sent ++ datagrams s.0.tunnel_id (m ∷ [])) ∙ l.sent_eq);
    },
  )

  pub write_step :
      (s : State) (ws : TunnelWriteState) (self : Tunnel) (w : World)
      → Good s (record self { write_state = ws }, w)
      → AfterWrite s (poll_write_state protocol (record self { write_state = ws }, w))
  unfolding poll_write_state
  write_step s recv self w g = recv_step s self w w.rx g
  write_step s (write none) self w g = absurd g.0.live
  write_step s (write (some m)) self w g = message_step s self w m w.send_ready w.send g
  write_step s TunnelWriteState.stop self w g = absurd g.0.live

  abbrev pub WriteEnds : State → Run State → Type 0
  WriteEnds s (rests t) = Good s t
  WriteEnds s (stops t) = Unit {0}
  WriteEnds s panics = ⊥
  WriteEnds s starves = Unit {0}

  write_next-WriteEnds :
      (s : State) (rounds : State → Run State)
      → ((t : State) → Good s t → WriteEnds s (rounds t))
      → (r : Outcome (Poll TunnelWriteState × State)) → AfterWrite s r
      → WriteEnds s (write_next rounds r)
  unfolding write_next
  write_next-WriteEnds s rounds h panic v = v
  write_next-WriteEnds s rounds h (ok (pending, t)) v = v
  write_next-WriteEnds s rounds h (ok (ready TunnelWriteState.stop, t)) v = tt
  write_next-WriteEnds s rounds h (ok (ready recv, t)) v = h _ v
  write_next-WriteEnds s rounds h (ok (ready (write m), t)) v = h _ v

  write_loop-from :
      (s : State) (fuel : ℕ) (t : State) → Good s t → WriteEnds s (write_loop protocol fuel t)
  unfolding write_loop
  write_loop-from s zero t g = tt
  write_loop-from s (suc fuel) t g =
      write_next-WriteEnds s (write_loop protocol fuel) (write_loop-from s fuel)
        (poll_write_state protocol t) (write_step s t.0.write_state t.0 t.1 g)

  -- On a socket that takes a datagram whenever it said that it is ready, the write half of `poll` does not panic,
  -- and when it comes to rest, the messages that came from the channel were sent in their order, each
  -- in one datagram with the tunnel's id, but for the one in the write state.
  pub udp_write_loop-WriteEnds :
      (fuel : ℕ) (s : State) → Inv s → WriteEnds s (write_loop protocol fuel s)
  udp_write_loop-WriteEnds fuel s v = write_loop-from s fuel s (v, Sends-refl s)
