-- ===== src/UdpTunnel/Relay/KeepAlive.antt =====
-- The keep-alives of src/servers/udp_tunnel.rs.
use pocket_relay_client_shar.Prelude.{
  ℕ, ◌+◌, ◌-◌, ◌≤◌, ◌≡◌, ◌⊎◌, refl, Bool, Bool-cases, inl, inr, true, false, Option, none, some,
  List, [], ◌∷◌, ◌++◌, if◌then◌else◌, le→ltb, Outcome, ok, panic, arith,
}
use pocket_relay_client_shar.Polling.{Poll, pending, ready}
use pocket_relay_client_shar.UdpTunnel.Message.{TunnelMessage, keep_alive, Protocol}
use pocket_relay_client_shar.UdpTunnel.Relay.{
  TunnelWriteState, TunnelReadState, recv, write, World, Tunnel, State, first_or, poll_tick,
  instant_now, reply_keep_alive, poll_receive, poll_read_state,
}

-- The world after the check for a keep-alive.
abbrev pub checked : World → World
checked w = let (is_ready, w) = poll_tick w in if is_ready then (instant_now w).1 else w

-- The last keep-alive is not later than the clock.
abbrev pub IsTimely : State → Type 0
IsTimely s = s.0.last_keep_alive ≤ s.1.now

module _ (protocol : Protocol) where
  open protocol use {serialize_message, deserialize_message}

  -- The check for a keep-alive never stops the tunnel: if the last keep-alive is not later than the
  -- clock, then however much time has passed since, `poll_read_state` goes on to receive.
  pub poll_read_state_no_timeout :
      (self : Tunnel) (w : World)
      → IsTimely (self, w)
      → poll_read_state protocol (self, w) ≡ poll_receive protocol (self, checked w)
  unfolding poll_read_state
  poll_read_state_no_timeout self w h = elim (Bool-cases (first_or false w.ticks)) [
    | inl e ↦ rw (
      poll_read_state,
      e,
      le→ltb 40000 (self.last_keep_alive - (w.now + first_or 0 w.elapse)) (omega arith),
    )
    | inr e ↦ rw (poll_read_state, e)
  ]

  -- What a poll of the read state may leave of a write state that is a keep-alive.
  abbrev pub OnlyKeepAlive : ℕ → List (List ℕ) → Outcome (Poll TunnelReadState × State) → Type 0
  OnlyKeepAlive tunnel_id sent panic = Unit {0}
  OnlyKeepAlive tunnel_id sent (ok (p, t)) =
      (((t.0.write_state ≡ write (some keep_alive))
          ⊎ (t.0.write_state ≡ write none)
          ⊎ (t.0.write_state ≡ TunnelWriteState.stop))
        × (t.1.sent ≡ sent))
      ⊎ ((t.0.write_state ≡ recv)
          × (t.1.sent ≡ sent ++ (serialize_message tunnel_id keep_alive ∷ [])))

  reply-OnlyKeepAlive :
      (self : Tunnel) (w : World) (readies sends : List (Poll Bool))
      → OnlyKeepAlive self.tunnel_id w.sent
          (reply_keep_alive protocol (self, record w { send_ready = readies; send = sends }))
  unfolding reply_keep_alive
  reply-OnlyKeepAlive self w [] sends = inl (inl refl, refl)
  reply-OnlyKeepAlive self w (pending ∷ readies) sends = inl (inl refl, refl)
  reply-OnlyKeepAlive self w (ready false ∷ readies) sends = inl (inr (inr refl), refl)
  reply-OnlyKeepAlive self w (ready true ∷ readies) [] = inl (inr (inl refl), refl)
  reply-OnlyKeepAlive self w (ready true ∷ readies) (pending ∷ sends) = inl (inr (inl refl), refl)
  reply-OnlyKeepAlive self w (ready true ∷ readies) (ready true ∷ sends) = inr (refl, refl)
  reply-OnlyKeepAlive self w (ready true ∷ readies) (ready false ∷ sends) = tt

  -- A keep-alive that arrives while a message is being written replaces the message: whatever the
  -- socket answers, the datagrams sent so far grow by the reply at most, and what the tunnel still
  -- has to write is the reply or nothing; or it panics.
  pub keep_alive_replaces :
      (self : Tunnel) (w : World) (m : TunnelMessage) (buffer : List ℕ) (readies : List (Poll Bool))
      (datagrams : List (Poll (Option (List ℕ))))
      → deserialize_message buffer ≡ some keep_alive
      → OnlyKeepAlive self.tunnel_id w.sent (
          poll_receive protocol (
            record self { write_state = write (some m) },
            record w { recv_ready = ready true ∷ readies; recv = ready (some buffer) ∷ datagrams },
          ))
  unfolding poll_receive
  keep_alive_replaces self w m buffer readies datagrams e =
      rw (poll_receive, e)
        (reply-OnlyKeepAlive (record self { write_state = write (some m) })
          (record w { recv_ready = readies; recv = datagrams }) w.send_ready w.send)
