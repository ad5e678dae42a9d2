-- ===== src/Tunnel/Relay/Sending.antt =====
-- What a poll of the write state sends against what it takes from the channel.
use pocket_relay_client_shar.Prelude.{
  ◌≤◌, ◌≡◌, refl, sym, ap, ◌∙◌, Bool, true, false, Option, none, some, List, [], ◌∷◌, ◌++◌,
  append-nil, ◌==◌, if◌then◌else◌, length, Outcome, ok, panic, arith,
}
use pocket_relay_client_shar.Polling.{Poll, pending, ready}
use pocket_relay_client_shar.Tunnel.Codec.{TunnelMessage}
use pocket_relay_client_shar.Tunnel.Relay.{
  TunnelWriteState, recv, write, flush, World, Tunnel, State, poll_write_recv, poll_write_message,
  poll_write_flush, poll_write_state, set_write_state,
}

-- The messages that are no keep-alives.
abbrev pub data_of : List TunnelMessage → List TunnelMessage
data_of [] = []
data_of (m ∷ ms) = if m.index == 255 then data_of ms else m ∷ data_of ms

pub data_of-append : (ms ns : List TunnelMessage) → data_of (ms ++ ns) ≡ data_of ms ++ data_of ns
data_of-append [] ns = refl
data_of-append (m ∷ ms) ns = ground (arith, data_of-append ms ns)

abbrev pub in_flight : TunnelWriteState → List TunnelMessage
in_flight recv = []
in_flight (write none) = []
in_flight (write (some m)) = m ∷ []
in_flight flush = []
in_flight TunnelWriteState.stop = []

-- The states in which `poll_write_state` does not panic.
abbrev pub IsLive : TunnelWriteState → Type 0
IsLive recv = Unit {0}
IsLive (write none) = ⊥
IsLive (write (some m)) = Unit {0}
IsLive flush = Unit {0}
IsLive TunnelWriteState.stop = ⊥

-- The tunnel can be polled, and every message from the channel was sent or is the one being written.
pub record Inv (s : State) : Type 0 where
  pub live : IsLive s.0.write_state
  pub ledger : data_of s.1.sent ++ data_of (in_flight s.0.write_state) ≡ data_of s.1.taken

-- A tunnel that has stopped has lost one message at most, the last one.
pub record Lost (s : State) : Type 0 where
  pub lost : List TunnelMessage
  pub at_most_one : length lost ≤ 1
  pub ledger : data_of s.1.sent ++ lost ≡ data_of s.1.taken

abbrev pub AfterWrite : Outcome (Poll TunnelWriteState × State) → Type 0
AfterWrite panic = ⊥
AfterWrite (ok (pending, s)) = Inv s
AfterWrite (ok (ready TunnelWriteState.stop, s)) = Lost s
AfterWrite (ok (ready recv, s)) = Inv (set_write_state recv s)
AfterWrite (ok (ready flush, s)) = Inv (set_write_state flush s)
AfterWrite (ok (ready (write m), s)) = Inv (set_write_state (write m) s)

snoc_ledger :
    (xs ys : List TunnelMessage) (m : TunnelMessage)
    → data_of xs ++ [] ≡ data_of ys
    → data_of xs ++ data_of (m ∷ []) ≡ data_of (ys ++ (m ∷ []))
snoc_ledger xs ys m h =
    ap (λ l. l ++ data_of (m ∷ [])) (sym (append-nil (data_of xs)) ∙ h)
    ∙ sym (data_of-append ys (m ∷ []))

sent_ledger :
    (xs ys : List TunnelMessage) (m : TunnelMessage)
    → data_of xs ++ data_of (m ∷ []) ≡ data_of ys
    → data_of (xs ++ (m ∷ [])) ++ [] ≡ data_of ys
sent_ledger xs ys m h = append-nil (data_of (xs ++ (m ∷ []))) ∙ data_of-append xs (m ∷ []) ∙ h

pub data_of-le : (ms : List TunnelMessage) → length (data_of ms) ≤ length ms
data_of-le [] = omega arith
data_of-le (m ∷ ms) = ground (arith, data_of-le ms)

recv_step :
    (self : Tunnel) (w : World) (rx : List (Poll (Option TunnelMessage)))
    → Inv (record self { write_state = recv }, record w { rx = rx })
    → AfterWrite (poll_write_recv (record self { write_state = recv }, record w { rx = rx }))
unfolding poll_write_recv
recv_step self w [] v = record { live = tt; ledger = v.ledger }
recv_step self w (pending ∷ rx) v = record { live = tt; ledger = v.ledger }
recv_step self w (ready none ∷ rx) v = record {
  lost = [];
  at_most_one = omega arith;
  ledger = v.ledger;
}
recv_step self w (ready (some m) ∷ rx) v = record {
  live = tt;
  ledger = snoc_ledger w.sent w.taken m v.ledger;
}

message_step :
    (self : Tunnel) (w : World) (m : TunnelMessage) (script : List (Poll Bool))
    → Inv (record self { write_state = write (some m) }, record w { ready = script })
    → AfterWrite (
        poll_write_message
          (some m)
          (record self { write_state = write (some m) }, record w { ready = script }))
unfolding poll_write_message
message_step self w m [] v = record { live = tt; ledger = v.ledger }
message_step self w m (pending ∷ script) v = record { live = tt; ledger = v.ledger }
message_step self w m (ready true ∷ script) v = record {
  live = tt;
  ledger = sent_ledger w.sent w.taken m v.ledger;
}
message_step self w m (ready false ∷ script) v = record {
  lost = data_of (m ∷ []);
  at_most_one = data_of-le (m ∷ []);
  ledger = v.ledger;
}

flush_step :
    (self : Tunnel) (w : World) (script : List (Poll Bool))
    → Inv (record self { write_state = flush }, record w { flushed = script })
    → AfterWrite
        (poll_write_flush (record self { write_state = flush }, record w { flushed = script }))
unfolding poll_write_flush
flush_step self w [] v = record { live = tt; ledger = v.ledger }
flush_step self w (pending ∷ script) v = record { live = tt; ledger = v.ledger }
flush_step self w (ready true ∷ script) v = record { live = tt; ledger = v.ledger }
flush_step self w (ready false ∷ script) v = record {
  lost = [];
  at_most_one = omega arith;
  ledger = v.ledger;
}

pub write_step :
    (ws : TunnelWriteState) (self : Tunnel) (w : World)
    → Inv (record self { write_state = ws }, w)
    → AfterWrite (poll_write_state (record self { write_state = ws }, w))
unfolding poll_write_state
write_step recv self w v = recv_step self w w.rx v
write_step (write none) self w v = absurd v.live
write_step (write (some m)) self w v = message_step self w m w.ready v
write_step flush self w v = flush_step self w w.flushed v
write_step TunnelWriteState.stop self w v = absurd v.live
