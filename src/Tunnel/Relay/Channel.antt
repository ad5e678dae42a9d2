-- ===== src/Tunnel/Relay/Channel.antt =====
-- A poll of the tunnel loses no message of its channel: each is taken, or still there.
use pocket_relay_client_shar.Prelude.{
  ℕ, zero, suc, ◌≡◌, ◌∙◌, Bool-cases, inl, inr, true, false, Bool, Option, Option-cases, none, some,
  List, [], ◌∷◌, ◌++◌, append_assoc, ◌==◌, get_elem?, Outcome, ok, panic, ◌>>=◌,
}
use pocket_relay_client_shar.Polling.{
  messages, Poll, pending, ready, Run, rests, stops, panics, starves,
}
use pocket_relay_client_shar.Tunnel.Codec.{TunnelMessage}
use pocket_relay_client_shar.Tunnel.Relay.{
  TunnelWriteState, TunnelReadState, recv, write, flush, continue, Next, item, failed, closed,
  World, Tunnel, State, ping, poll_write_recv, poll_write_message, poll_write_flush,
  poll_write_state, after_write, reply_ping, deliver, poll_read_state, write_next, read_next,
  and_then, write_loop, read_loop, poll,
}

-- All the messages that the channel ever had.
abbrev pub channel : World → List TunnelMessage
channel w = w.taken ++ messages w.rx

module _ (total : List TunnelMessage) where
  abbrev Kept : {A : Type 0} → Outcome (A × State) → Type 0
  Kept panic = Unit
  Kept (ok (a, s)) = channel s.1 ≡ total

  recv_Kept :
      (self : Tunnel) (w : World) (rx : List (Poll (Option TunnelMessage)))
      → channel (record w { rx = rx }) ≡ total
      → Kept (poll_write_recv (self, record w { rx = rx }))
  unfolding poll_write_recv
  recv_Kept self w [] v = v
  recv_Kept self w (pending ∷ rx) v = v
  recv_Kept self w (ready none ∷ rx) v = v
  recv_Kept self w (ready (some m) ∷ rx) v = append_assoc w.taken (m ∷ []) (messages rx) ∙ v

  message_Kept :
      (m : Option TunnelMessage) (self : Tunnel) (w : World) (script : List (Poll Bool))
      → channel w ≡ total
      → Kept (poll_write_message m (self, record w { ready = script }))
  unfolding poll_write_message
  message_Kept m self w [] v = v
  message_Kept m self w (pending ∷ script) v = v
  message_Kept none self w (ready true ∷ script) v = tt
  message_Kept (some m) self w (ready true ∷ script) v = v
  message_Kept m self w (ready false ∷ script) v = v

  flush_Kept :
      (self : Tunnel) (w : World) (script : List (Poll Bool))
      → channel w ≡ total
      → Kept (poll_write_flush (self, record w { flushed = script }))
  unfolding poll_write_flush
  flush_Kept self w [] v = v
  flush_Kept self w (pending ∷ script) v = v
  flush_Kept self w (ready true ∷ script) v = v
  flush_Kept self w (ready false ∷ script) v = v

  write_Kept :
      (ws : TunnelWriteState) (self : Tunnel) (w : World)
      → channel w ≡ total
      → Kept (poll_write_state (record self { write_state = ws }, w))
  unfolding poll_write_state
  write_Kept recv self w v = recv_Kept (record self { write_state = recv }) w w.rx v
  write_Kept (write m) self w v = message_Kept m (record self { write_state = write m }) w w.ready v
  write_Kept flush self w v = flush_Kept (record self { write_state = flush }) w w.flushed v
  write_Kept TunnelWriteState.stop self w v = tt

  -- The channel's messages at the end of a poll.
  abbrev pub Keeps : Run State → Type 0
  Keeps (rests s) = channel s.1 ≡ total
  Keeps (stops s) = channel s.1 ≡ total
  Keeps _ = Unit

  write_next-Keeps :
      (rounds : State → Run State)
      → ((s : State) → channel s.1 ≡ total → Keeps (rounds s))
      → (r : Outcome (Poll TunnelWriteState × State)) → Kept r
      → Keeps (write_next rounds r)
  unfolding write_next
  write_next-Keeps rounds h panic v = tt
  write_next-Keeps rounds h (ok (pending, s)) v = v
  write_next-Keeps rounds h (ok (ready TunnelWriteState.stop, s)) v = v
  write_next-Keeps rounds h (ok (ready recv, s)) v = h _ v
  write_next-Keeps rounds h (ok (ready flush, s)) v = h _ v
  write_next-Keeps rounds h (ok (ready (write m), s)) v = h _ v

  write_loop-Keeps : (fuel : ℕ) (s : State) → channel s.1 ≡ total → Keeps (write_loop fuel s)
  unfolding write_loop
  write_loop-Keeps zero s v = tt
  write_loop-Keeps (suc fuel) s v =
      write_next-Keeps (write_loop fuel) (write_loop-Keeps fuel) (poll_write_state s)
        (write_Kept s.0.write_state s.0 s.1 v)

  after_write-Kept :
      (r : Outcome (Poll TunnelWriteState × State)) → Kept r → Kept (r >>= after_write)
  after_write-Kept panic v = v
  after_write-Kept (ok (pending, s)) v = v
  after_write-Kept (ok (ready TunnelWriteState.stop, s)) v = v
  after_write-Kept (ok (ready recv, s)) v = v
  after_write-Kept (ok (ready flush, s)) v = v
  after_write-Kept (ok (ready (write m), s)) v = v

  reply_ping-Kept :
      (ws : TunnelWriteState) (self : Tunnel) (w : World)
      → channel w ≡ total
      → Kept (reply_ping (record self { write_state = ws }, w))
  unfolding reply_ping
  reply_ping-Kept recv self w v =
      after_write-Kept (poll_write_state (record self { write_state = write (some ping) }, w))
        (write_Kept (write (some ping)) self w v)
  reply_ping-Kept (write m) self w v = v
  reply_ping-Kept flush self w v = v
  reply_ping-Kept TunnelWriteState.stop self w v = v

  deliver-channel :
      (m : TunnelMessage) (self : Tunnel) (w : World)
      → channel w ≡ total
      → channel (deliver m (self, w)).1 ≡ total
  unfolding deliver
  deliver-channel m self w v = elim (Option-cases (get_elem? self.pool m.index)) [
    | inl absent ↦ rw (deliver, absent) v
    | inr (handle, present) ↦ rw (deliver, present) v
  ]

  read_Kept :
      (self : Tunnel) (w : World) (script : List (Poll Next))
      → channel w ≡ total
      → Kept (poll_read_state (self, record w { next = script }))
  unfolding poll_read_state
  read_Kept self w [] v = v
  read_Kept self w (pending ∷ script) v = v
  read_Kept self w (ready failed ∷ script) v = v
  read_Kept self w (ready closed ∷ script) v = v
  read_Kept self w (ready (item m) ∷ script) v = elim (Bool-cases (m.index == 255)) [
    | inl e ↦
        rw (poll_read_state, e)
          (reply_ping-Kept self.write_state self (record w { next = script }) v)
    | inr e ↦ rw (poll_read_state, e) (deliver-channel m self (record w { next = script }) v)
  ]

  read_next-Keeps :
      (rounds : State → Run State)
      → ((s : State) → channel s.1 ≡ total → Keeps (rounds s))
      → (r : Outcome (Poll TunnelReadState × State)) → Kept r
      → Keeps (read_next rounds r)
  unfolding read_next
  read_next-Keeps rounds h panic v = tt
  read_next-Keeps rounds h (ok (pending, s)) v = v
  read_next-Keeps rounds h (ok (ready TunnelReadState.stop, s)) v = v
  read_next-Keeps rounds h (ok (ready continue, s)) v = h s v

  read_loop-Keeps : (fuel : ℕ) (s : State) → channel s.1 ≡ total → Keeps (read_loop fuel s)
  unfolding read_loop
  read_loop-Keeps zero s v = tt
  read_loop-Keeps (suc fuel) s v =
      read_next-Keeps (read_loop fuel) (read_loop-Keeps fuel) (poll_read_state s)
        (read_Kept s.0 s.1 s.1.next v)

  and_then-Keeps :
      (r : Run State) (k : State → Run State)
      → Keeps r
      → ((s : State) → channel s.1 ≡ total → Keeps (k s))
      → Keeps (and_then r k)
  and_then-Keeps (rests s) k v h = h s v
  and_then-Keeps (stops s) k v h = v
  and_then-Keeps panics k v h = v
  and_then-Keeps starves k v h = v

  pub poll-Keeps : (fuel : ℕ) (s : State) → channel s.1 ≡ total → Keeps (poll fuel s)
  unfolding poll
  poll-Keeps fuel s v =
      and_then-Keeps (write_loop fuel s) (read_loop fuel) (write_loop-Keeps fuel s v)
        (read_loop-Keeps fuel)
