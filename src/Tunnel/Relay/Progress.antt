-- ===== src/Tunnel/Relay/Progress.antt =====
-- The write half of the tunnel comes to an end and delivers nothing.
use pocket_relay_client_shar.Prelude.{
  ℕ, zero, suc, ◌+◌, ◌<◌, ◌≡◌, Bool, true, false, Option, none, some, List, [], ◌∷◌, length,
  Outcome, ok, panic, arith,
}
use pocket_relay_client_shar.Polling.{Poll, pending, ready, Run, rests, stops, panics, starves}
use pocket_relay_client_shar.Tunnel.Codec.{TunnelMessage}
use pocket_relay_client_shar.Tunnel.Relay.{
  TunnelWriteState, recv, write, flush, World, Tunnel, State, poll_write_recv, poll_write_message,
  poll_write_flush, poll_write_state, set_write_state, write_next, write_loop,
}

-- What can be written still: the answers that the channel and the connection have in store.
abbrev pub write_work : World → ℕ
write_work w = length w.rx + length w.ready + length w.flushed

pub record Same (s t : State) : Type 0 where
  pub next_eq : t.1.next ≡ s.1.next
  pub delivered_eq : t.1.delivered ≡ s.1.delivered
  pub pool_eq : t.0.pool ≡ s.0.pool

abbrev pub Wrote : State → Outcome (Poll TunnelWriteState × State) → Type 0
Wrote s panic = Unit {0}
Wrote s (ok (pending, t)) = Same s t
Wrote s (ok (ready next, t)) = Same s t × (write_work t.1 < write_work s.1)

recv_Wrote :
    (self : Tunnel) (w : World) (rx : List (Poll (Option TunnelMessage)))
    → Wrote (self, record w { rx = rx }) (poll_write_recv (self, record w { rx = rx }))
unfolding poll_write_recv
recv_Wrote self w [] = ground arith
recv_Wrote self w (pending ∷ rx) = ground arith
recv_Wrote self w (ready none ∷ rx) = ground arith
recv_Wrote self w (ready (some m) ∷ rx) = ground arith

message_Wrote :
    (m : Option TunnelMessage) (self : Tunnel) (w : World) (script : List (Poll Bool))
    → Wrote
        (self, record w { ready = script })
        (poll_write_message m (self, record w { ready = script }))
unfolding poll_write_message
message_Wrote m self w [] = ground arith
message_Wrote m self w (pending ∷ script) = ground arith
message_Wrote none self w (ready true ∷ script) = tt
message_Wrote (some m) self w (ready true ∷ script) = ground arith
message_Wrote m self w (ready false ∷ script) = ground arith

flush_Wrote :
    (self : Tunnel) (w : World) (script : List (Poll Bool))
    → Wrote
        (self, record w { flushed = script })
        (poll_write_flush (self, record w { flushed = script }))
unfolding poll_write_flush
flush_Wrote self w [] = ground arith
flush_Wrote self w (pending ∷ script) = ground arith
flush_Wrote self w (ready true ∷ script) = ground arith
flush_Wrote self w (ready false ∷ script) = ground arith

pub write_Wrote :
    (ws : TunnelWriteState) (self : Tunnel) (w : World)
    → Wrote
        (record self { write_state = ws }, w)
        (poll_write_state (record self { write_state = ws }, w))
unfolding poll_write_state
write_Wrote recv self w = recv_Wrote (record self { write_state = recv }) w w.rx
write_Wrote (write m) self w = message_Wrote m (record self { write_state = write m }) w w.ready
write_Wrote flush self w = flush_Wrote (record self { write_state = flush }) w w.flushed
write_Wrote TunnelWriteState.stop self w = tt

pub Same-refl : (s : State) → Same s s
Same-refl s = ground arith

pub Same-trans : (s t u : State) → Same s t → Same t u → Same s u
Same-trans s t u a b = ground arith

abbrev pub WriteEnds : State → Run State → Type 0
WriteEnds s (rests t) = Same s t
WriteEnds s (stops t) = Same s t
WriteEnds s panics = Unit {0}
WriteEnds s starves = ⊥

WriteEnds-trans : (s t : State) (r : Run State) → Same s t → WriteEnds t r → WriteEnds s r
WriteEnds-trans s t (rests u) a b = Same-trans s t u a b
WriteEnds-trans s t (stops u) a b = Same-trans s t u a b
WriteEnds-trans s t panics a b = tt
WriteEnds-trans s t starves a b = b

pub Same-set : (s t : State) (next : TunnelWriteState) → Same s t → Same s (set_write_state next t)
Same-set s t next a = ground arith

write_next-WriteEnds :
    (fuel : ℕ) (rounds : State → Run State) (s : State)
    → ((t : State) → write_work t.1 < fuel → WriteEnds t (rounds t))
    → (r : Outcome (Poll TunnelWriteState × State)) → write_work s.1 < suc fuel
    → Wrote s r
    → WriteEnds s (write_next rounds r)
unfolding write_next
write_next-WriteEnds fuel rounds s h panic e v = tt
write_next-WriteEnds fuel rounds s h (ok (pending, t)) e v = v
write_next-WriteEnds fuel rounds s h (ok (ready TunnelWriteState.stop, t)) e v =
    Same-set s t TunnelWriteState.stop v.0
write_next-WriteEnds fuel rounds s h (ok (ready recv, t)) e v =
    WriteEnds-trans s (set_write_state recv t) (rounds (set_write_state recv t))
      (Same-set s t recv v.0) (h (set_write_state recv t) (omega (arith, v.1)))
write_next-WriteEnds fuel rounds s h (ok (ready flush, t)) e v =
    WriteEnds-trans s (set_write_state flush t) (rounds (set_write_state flush t))
      (Same-set s t flush v.0) (h (set_write_state flush t) (omega (arith, v.1)))
write_next-WriteEnds fuel rounds s h (ok (ready (write m), t)) e v =
    WriteEnds-trans s (set_write_state (write m) t) (rounds (set_write_state (write m) t))
      (Same-set s t (write m) v.0) (h (set_write_state (write m) t) (omega (arith, v.1)))

pub write_loop-WriteEnds :
    (fuel : ℕ) (s : State) → write_work s.1 < fuel → WriteEnds s (write_loop fuel s)
unfolding write_loop
write_loop-WriteEnds zero s h = absurd (omega arith)
write_loop-WriteEnds (suc fuel) s h =
    write_next-WriteEnds fuel (write_loop fuel) s (write_loop-WriteEnds fuel) (poll_write_state s) h
      (write_Wrote s.0.write_state s.0 s.1)
