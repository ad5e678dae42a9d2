-- ===== src/UdpTunnel/Relay/Channel.antt =====
-- A poll of the UDP tunnel loses no message of its channel: each is taken, or still there.
use pocket_relay_client_shar.Prelude.{
  ℕ, ◌≡◌, ◌∙◌, Bool, true, false, Option, none, some, List, [], ◌∷◌, ◌++◌, append_assoc, Outcome,
  ok, panic, if◌then◌else◌,
}
use pocket_relay_client_shar.Polling.{messages, Poll, pending, ready}
use pocket_relay_client_shar.UdpTunnel.Message.{TunnelMessage, Protocol}
use pocket_relay_client_shar.UdpTunnel.Relay.{
  TunnelWriteState, recv, write, World, Tunnel, State, first_or, poll_write_recv,
  poll_write_message, poll_write_state, poll,
}
use pocket_relay_client_shar.UdpTunnel.Relay.Walk.{AfterWrite, Ends, Kept, poll-Ends}
use pocket_relay_client_shar.UdpTunnel.Relay.Ledger.{Lost, Accounted}
use pocket_relay_client_shar.UdpTunnel.Relay.Accounts.{Accounted-Kept}

-- All the messages that the channel ever had.
abbrev pub channel : World → List TunnelMessage
channel w = w.taken ++ messages w.rx

module _ (protocol : Protocol) (tunnel_id : ℕ) (total : List TunnelMessage) where
  abbrev Whole : Outcome (Poll TunnelWriteState × State) → Type 0
  Whole panic = Unit
  Whole (ok (p, s)) = channel s.1 ≡ total

  recv_Whole :
      (self : Tunnel) (w : World) (rx : List (Poll (Option TunnelMessage)))
      → channel (record w { rx = rx }) ≡ total
      → Whole (poll_write_recv (self, record w { rx = rx }))
  unfolding poll_write_recv
  recv_Whole self w [] v = v
  recv_Whole self w (pending ∷ rx) v = v
  recv_Whole self w (ready none ∷ rx) v = v
  recv_Whole self w (ready (some m) ∷ rx) v = append_assoc w.taken (m ∷ []) (messages rx) ∙ v

  message_Whole :
      (m : Option TunnelMessage) (self : Tunnel) (w : World) (readies sends : List (Poll Bool))
      → channel w ≡ total
      → Whole
          (poll_write_message protocol m (self, record w { send_ready = readies; send = sends }))
  unfolding poll_write_message
  message_Whole m self w [] sends v = v
  message_Whole m self w (pending ∷ readies) sends v = v
  message_Whole m self w (ready false ∷ readies) sends v = v
  message_Whole none self w (ready true ∷ readies) sends v = tt
  message_Whole (some m) self w (ready true ∷ readies) [] v = v
  message_Whole (some m) self w (ready true ∷ readies) (pending ∷ sends) v = v
  message_Whole (some m) self w (ready true ∷ readies) (ready true ∷ sends) v = v
  message_Whole (some m) self w (ready true ∷ readies) (ready false ∷ sends) v = tt

  write_Whole :
      (ws : TunnelWriteState) (self : Tunnel) (w : World)
      → channel w ≡ total
      → Whole (poll_write_state protocol (record self { write_state = ws }, w))
  unfolding poll_write_state
  write_Whole recv self w v = recv_Whole (record self { write_state = recv }) w w.rx v
  write_Whole (write m) self w v =
      message_Whole m (record self { write_state = write m }) w w.send_ready w.send v
  write_Whole TunnelWriteState.stop self w v = tt

  -- Of a tunnel that goes on, and of one that stops.
  abbrev pub Carries : State → Type 0
  Carries s = Accounted protocol tunnel_id s × (channel s.1 ≡ total)

  abbrev pub Stopped : State → Type 0
  Stopped s = Lost protocol tunnel_id s × (channel s.1 ≡ total)

  both :
      (r : Outcome (Poll TunnelWriteState × State))
      → AfterWrite (Accounted protocol tunnel_id) (Lost protocol tunnel_id) r
      → Whole r
      → AfterWrite Carries Stopped r
  both panic v k = v
  both (ok (pending, t)) v k = (v, k)
  both (ok (ready TunnelWriteState.stop, t)) v k = (v, k)
  both (ok (ready recv, t)) v k = (v, k)
  both (ok (ready (write m), t)) v k = (v, k)

  checked-channel :
      (b : Bool) (v w : World)
      → channel v ≡ total
      → channel w ≡ total
      → channel (if b then v else w) ≡ total
  checked-channel true v w h k = h
  checked-channel false v w h k = k

  Carries-Kept : Kept protocol Carries Stopped
  Carries-Kept =
      let kept = Accounted-Kept protocol tunnel_id in
      record {
        timely = λ s v. v.0.0.timely;
        ends = λ s v. (kept.ends s v.0, v.1);
        halts = λ s v. (kept.halts s v.0, v.1);
        writes = λ s v.
            both (poll_write_state protocol s) (kept.writes s v.0)
              (write_Whole s.0.write_state s.0 s.1 v.1);
        checks = λ self w v.
            (kept.checks self w v.0, checked-channel (first_or false w.ticks) _ _ v.1 v.1);
        reads = λ self w readies script v. (kept.reads self w readies script v.0, v.1);
        delivers = λ self w handle m v. (kept.delivers self w handle m v.0, v.1);
        replies = λ self w v. (kept.replies self w v.0, v.1);
      }

  -- A poll keeps the channel as a whole, and accounts for its messages.
  pub poll-Carries :
      (fuel : ℕ) (s : State) → Carries s → Ends Carries Stopped (poll protocol fuel s)
  poll-Carries = poll-Ends protocol Carries Stopped Carries-Kept
