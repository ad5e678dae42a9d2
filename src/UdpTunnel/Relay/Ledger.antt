-- ===== src/UdpTunnel/Relay/Ledger.antt =====
-- What `poll` of the UDP tunnel sends of the messages that it takes from its channel, across its write
-- half and its read half, where a reply to a keep-alive may take the place of a message.
use mathlib.Core.List.{map-append}
use pocket_relay_client_shar.Prelude.{
  ℕ, ◌≤◌, ◌≡◌, sym, ap, ◌∙◌, subst, Bool, true, false, Option, none, some, List, [], ◌∷◌, ◌++◌,
  append-nil, length, arith,
}
use pocket_relay_client_shar.Polling.{Poll, pending, ready}
use pocket_relay_client_shar.UdpTunnel.Message.{TunnelMessage, Protocol}
use pocket_relay_client_shar.UdpTunnel.Relay.{
  TunnelWriteState, recv, write, World, Tunnel, State, poll_write_state, poll_write_recv,
  poll_write_message,
}
use pocket_relay_client_shar.UdpTunnel.Relay.Walk.{AfterWrite}
use pocket_relay_client_shar.UdpTunnel.Relay.Thins.{Thins, Thins-take}
use pocket_relay_client_shar.UdpTunnel.Relay.Writing.{Inv, in_flight, datagrams}

-- The tunnel has been given `tunnel_id`.
module _ (protocol : Protocol) (tunnel_id : ℕ) where
  open protocol use {serialize_message}

  -- `messages` were sent, each in one datagram with the tunnel's id; with the message in the write
  -- state, they are what came from the channel.
  pub record Ledger (s : State) : Type 0 where
    pub messages : List TunnelMessage
    pub id_eq : s.0.tunnel_id ≡ tunnel_id
    pub sent_eq : s.1.sent ≡ datagrams protocol tunnel_id messages
    pub thins : Thins (messages ++ in_flight s.0.write_state) s.1.taken

  -- Of a tunnel that stops: one message at most is lost at the end.
  pub record Lost (s : State) : Type 0 where
    pub messages : List TunnelMessage
    pub late : List TunnelMessage
    pub id_eq : s.0.tunnel_id ≡ tunnel_id
    pub sent_eq : s.1.sent ≡ datagrams protocol tunnel_id messages
    pub thins : Thins (messages ++ late) s.1.taken
    pub late_bound : length late ≤ 1

  abbrev pub Accounted : State → Type 0
  Accounted s = Inv s × Ledger s

  pub Ledger-Lost : (s : State) → Ledger s → Lost s
  Ledger-Lost s l = record {
    messages = l.messages;
    late = in_flight s.0.write_state;
    id_eq = l.id_eq;
    sent_eq = l.sent_eq;
    thins = l.thins;
    late_bound = bound s.0.write_state;
  }
    where
      bound : (ws : TunnelWriteState) → length (in_flight ws) ≤ 1
      bound recv = omega arith
      bound (write none) = omega arith
      bound (write (some m)) = omega arith
      bound TunnelWriteState.stop = omega arith

  recv_step :
      (self : Tunnel) (w : World) (rx : List (Poll (Option TunnelMessage)))
      → Ledger (record self { write_state = recv }, record w { rx = rx })
      → AfterWrite Ledger Lost
          (poll_write_recv (record self { write_state = recv }, record w { rx = rx }))
  unfolding poll_write_recv
  recv_step self w [] l = record {
    messages = l.messages;
    id_eq = l.id_eq;
    sent_eq = l.sent_eq;
    thins = l.thins;
  }
  recv_step self w (pending ∷ rx) l = record {
    messages = l.messages;
    id_eq = l.id_eq;
    sent_eq = l.sent_eq;
    thins = l.thins;
  }
  recv_step self w (ready none ∷ rx) l = record {
    messages = l.messages;
    late = [];
    id_eq = l.id_eq;
    sent_eq = l.sent_eq;
    thins = l.thins;
    late_bound = omega arith;
  }
  recv_step self w (ready (some m) ∷ rx) l = record {
    messages = l.messages;
    id_eq = l.id_eq;
    sent_eq = l.sent_eq;
    thins =
        Thins-take l.messages w.taken m
          (subst (λ q. Thins q w.taken) (append-nil l.messages) l.thins);
  }

  message_step :
      (self : Tunnel) (w : World) (m : TunnelMessage) (readies sends : List (Poll Bool))
      → Inv (
        record self { write_state = write (some m) },
        record w { send_ready = readies; send = sends },
      )
      → Ledger (
        record self { write_state = write (some m) },
        record w { send_ready = readies; send = sends },
      )
      → AfterWrite Ledger Lost (
          poll_write_message protocol (some m) (
            record self { write_state = write (some m) },
            record w { send_ready = readies; send = sends },
          ))
  unfolding poll_write_message
  message_step self w m [] sends v l = record {
    messages = l.messages;
    id_eq = l.id_eq;
    sent_eq = l.sent_eq;
    thins = l.thins;
  }
  message_step self w m (pending ∷ readies) sends v l = record {
    messages = l.messages;
    id_eq = l.id_eq;
    sent_eq = l.sent_eq;
    thins = l.thins;
  }
  message_step self w m (ready false ∷ readies) sends v l = record {
    messages = l.messages;
    late = m ∷ [];
    id_eq = l.id_eq;
    sent_eq = l.sent_eq;
    thins = l.thins;
    late_bound = omega arith;
  }
  message_step self w m (ready true ∷ readies) [] v l = absurd (omega (arith, v.sends_enough))
  message_step self w m (ready true ∷ readies) (pending ∷ sends) v l = cc (v.sends_ok.0)
  message_step self w m (ready true ∷ readies) (ready false ∷ sends) v l = cc (v.sends_ok.0)
  message_step self w m (ready true ∷ readies) (ready true ∷ sends) v l = record {
    messages = l.messages ++ (m ∷ []);
    id_eq = l.id_eq;
    sent_eq =
        ap (λ q. w.sent ++ datagrams protocol q (m ∷ [])) l.id_eq
        ∙ ap (λ q. q ++ datagrams protocol tunnel_id (m ∷ [])) l.sent_eq
        ∙ sym (map-append (serialize_message tunnel_id) l.messages (m ∷ []));
    thins = subst (λ q. Thins q w.taken) (sym (append-nil (l.messages ++ (m ∷ [])))) l.thins;
  }

  pub write_step :
      (ws : TunnelWriteState) (self : Tunnel) (w : World)
      → Inv (record self { write_state = ws }, w)
      → Ledger (record self { write_state = ws }, w)
      → AfterWrite Ledger Lost (poll_write_state protocol (record self { write_state = ws }, w))
  unfolding poll_write_state
  write_step recv self w v l = recv_step self w w.rx l
  write_step (write none) self w v l = absurd v.live
  write_step (write (some m)) self w v l = message_step self w m w.send_ready w.send v l
  write_step TunnelWriteState.stop self w v l = absurd v.live
