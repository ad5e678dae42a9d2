-- ===== src/UdpTunnel/Relay/Walk.antt =====
-- What every step of the UDP tunnel keeps, `poll` keeps.
use pocket_relay_client_shar.Prelude.{
  ℕ, zero, suc, Bool, inl, inr, true, false, Option, Option-cases, none, some, List, [], ◌∷◌,
  get_elem?, Outcome, ok, panic, ◌>>=◌,
}
use pocket_relay_client_shar.Polling.{Poll, pending, ready, Run, rests, stops, panics, starves}
use pocket_relay_client_shar.UdpTunnel.Message.{
  TunnelMessage, initiate, initiated, forward, keep_alive, Protocol,
}
use pocket_relay_client_shar.UdpTunnel.Relay.{
  TunnelWriteState, TunnelReadState, recv, write, continue, World, Tunnel, State, instant_now,
  after_write, poll_write_state, reply_keep_alive, poll_receive, poll_read_state, on_message,
  deliver, write_loop, read_loop, poll, read_next, write_next, and_then, handle_send,
  set_write_state,
}
use pocket_relay_client_shar.UdpTunnel.Relay.KeepAlive.{
  checked, IsTimely, poll_read_state_no_timeout,
}

-- What holds of a tunnel that goes on, and of one that stops.
abbrev pub AfterWrite :
    (State → Type 0) → (State → Type 0) → Outcome (Poll TunnelWriteState × State) → Type 0
AfterWrite Goes Stops panic = ⊥
AfterWrite Goes Stops (ok (pending, t)) = Goes t
AfterWrite Goes Stops (ok (ready TunnelWriteState.stop, t)) = Stops t
AfterWrite Goes Stops (ok (ready recv, t)) = Goes (set_write_state recv t)
AfterWrite Goes Stops (ok (ready (write m), t)) = Goes (set_write_state (write m) t)

abbrev AfterRead :
    (State → Type 0) → (State → Type 0) → Outcome (Poll TunnelReadState × State) → Type 0
AfterRead Goes Stops panic = ⊥
AfterRead Goes Stops (ok (ready TunnelReadState.stop, t)) = Stops t
AfterRead Goes Stops (ok (ready continue, t)) = Goes t
AfterRead Goes Stops (ok (pending, t)) = Goes t

-- How a call of `poll` may end: not by a panic.
abbrev pub Ends : (State → Type 0) → (State → Type 0) → Run State → Type 0
Ends Goes Stops (rests t) = Goes t
Ends Goes Stops (stops t) = Stops t
Ends Goes Stops panics = ⊥
Ends Goes Stops starves = Unit {0}

-- The steps that a poll is made of keep `Goes` until one of them gives `Stops`.
pub record Kept (protocol : Protocol) (Goes Stops : State → Type 0) : Type 0 where
  pub timely : (s : State) → Goes s → IsTimely s
  pub ends : (s : State) → Goes s → Stops s
  pub halts : (s : State) → Stops s → Stops (set_write_state TunnelWriteState.stop s)
  pub writes : (s : State) → Goes s → AfterWrite Goes Stops (poll_write_state protocol s)
  pub checks : (self : Tunnel) (w : World) → Goes (self, w) → Goes (self, checked w)
  pub reads :
      (self : Tunnel) (w : World) (readies : List (Poll Bool))
      (script : List (Poll (Option (List ℕ))))
      → Goes (self, w)
      → Goes (self, record w { recv_ready = readies; recv = script })
  pub delivers :
      (self : Tunnel) (w : World) (handle : ℕ) (m : List ℕ)
      → Goes (self, w)
      → Goes (self, handle_send handle m w)
  pub replies :
      (self : Tunnel) (w : World)
      → Goes (self, w)
      → let (now, v) = instant_now w in
        Goes (record self { last_keep_alive = now; write_state = write (some keep_alive) }, v)

module _ (protocol : Protocol) (Goes Stops : State → Type 0) (kept : Kept protocol Goes Stops) where
  open protocol use {serialize_message, deserialize_message}

  after_write-AfterRead :
      (r : Outcome (Poll TunnelWriteState × State))
      → AfterWrite Goes Stops r
      → AfterRead Goes Stops (r >>= after_write)
  after_write-AfterRead panic v = v
  after_write-AfterRead (ok (pending, t)) v = v
  after_write-AfterRead (ok (ready TunnelWriteState.stop, t)) v = kept.halts t v
  after_write-AfterRead (ok (ready recv, t)) v = v
  after_write-AfterRead (ok (ready (write m), t)) v = v

  reply_keep_alive-AfterRead :
      (s : State) → Goes s → AfterRead Goes Stops (reply_keep_alive protocol s)
  unfolding reply_keep_alive
  reply_keep_alive-AfterRead (self, w) v =
      after_write-AfterRead _ (kept.writes _ (kept.replies self w v))

  deliver-Goes : (index : ℕ) (m : List ℕ) (s : State) → Goes s → Goes (deliver index m s)
  unfolding deliver
  deliver-Goes index m s v = elim (Option-cases (get_elem? s.0.pool index)) [
    | inl e ↦ rw (deliver, e) v
    | inr (handle, e) ↦ rw (deliver, e) (kept.delivers s.0 s.1 handle m v)
  ]

  on_message-AfterRead :
      (m : TunnelMessage) (s : State) → Goes s → AfterRead Goes Stops (on_message protocol m s)
  unfolding on_message
  on_message-AfterRead (forward index m) s v = deliver-Goes index m s v
  on_message-AfterRead keep_alive s v = reply_keep_alive-AfterRead s v
  on_message-AfterRead (initiate token) s v = v
  on_message-AfterRead (initiated id) s v = v

  receive_step :
      (self : Tunnel) (w : World) (readies : List (Poll Bool))
      (script : List (Poll (Option (List ℕ))))
      → Goes (self, w)
      → AfterRead Goes Stops
          (poll_receive protocol (self, record w { recv_ready = readies; recv = script }))
  unfolding poll_receive
  receive_step self w [] script v = kept.reads self w _ _ v
  receive_step self w (pending ∷ readies) script v = kept.reads self w _ _ v
  receive_step self w (ready false ∷ readies) script v = kept.ends _ (kept.reads self w _ _ v)
  receive_step self w (ready true ∷ readies) [] v = kept.reads self w _ _ v
  receive_step self w (ready true ∷ readies) (pending ∷ script) v = kept.reads self w _ _ v
  receive_step self w (ready true ∷ readies) (ready none ∷ script) v =
      kept.ends _ (kept.reads self w _ _ v)
  receive_step self w (ready true ∷ readies) (ready (some buffer) ∷ script) v =
      let u = kept.reads self w readies script v in
      elim (Option-cases (deserialize_message buffer)) [
        | inl e ↦ rw (poll_receive, e) (kept.ends _ u)
        | inr (m, e) ↦ rw (poll_receive, e) (on_message-AfterRead m _ u)
      ]

  read_step : (s : State) → Goes s → AfterRead Goes Stops (poll_read_state protocol s)
  read_step (self, w) v =
      rw (poll_read_state_no_timeout protocol self w (kept.timely _ v)) (
        receive_step self (checked w) (checked w).recv_ready (checked w).recv
          (kept.checks self w v))

  read_next-Ends :
      (rounds : State → Run State)
      → ((t : State) → Goes t → Ends Goes Stops (rounds t))
      → (r : Outcome (Poll TunnelReadState × State)) → AfterRead Goes Stops r
      → Ends Goes Stops (read_next rounds r)
  unfolding read_next
  read_next-Ends rounds h panic v = v
  read_next-Ends rounds h (ok (pending, t)) v = v
  read_next-Ends rounds h (ok (ready TunnelReadState.stop, t)) v = v
  read_next-Ends rounds h (ok (ready continue, t)) v = h t v

  read_loop-Ends : (fuel : ℕ) (s : State) → Goes s → Ends Goes Stops (read_loop protocol fuel s)
  unfolding read_loop
  read_loop-Ends zero s v = tt
  read_loop-Ends (suc fuel) s v =
      read_next-Ends (read_loop protocol fuel) (read_loop-Ends fuel) (poll_read_state protocol s)
        (read_step s v)

  write_next-Ends :
      (rounds : State → Run State)
      → ((t : State) → Goes t → Ends Goes Stops (rounds t))
      → (r : Outcome (Poll TunnelWriteState × State)) → AfterWrite Goes Stops r
      → Ends Goes Stops (write_next rounds r)
  unfolding write_next
  write_next-Ends rounds h panic v = v
  write_next-Ends rounds h (ok (pending, t)) v = v
  write_next-Ends rounds h (ok (ready TunnelWriteState.stop, t)) v = kept.halts t v
  write_next-Ends rounds h (ok (ready recv, t)) v = h _ v
  write_next-Ends rounds h (ok (ready (write m), t)) v = h _ v

  write_loop-Ends : (fuel : ℕ) (s : State) → Goes s → Ends Goes Stops (write_loop protocol fuel s)
  unfolding write_loop
  write_loop-Ends zero s v = tt
  write_loop-Ends (suc fuel) s v =
      write_next-Ends (write_loop protocol fuel) (write_loop-Ends fuel)
        (poll_write_state protocol s) (kept.writes s v)

  and_then-Ends :
      (fuel : ℕ) (r : Run State)
      → Ends Goes Stops r
      → Ends Goes Stops (and_then r (read_loop protocol fuel))
  and_then-Ends fuel (rests t) v = read_loop-Ends fuel t v
  and_then-Ends fuel (stops t) v = v
  and_then-Ends fuel panics v = v
  and_then-Ends fuel starves v = v

  pub poll-Ends : (fuel : ℕ) (s : State) → Goes s → Ends Goes Stops (poll protocol fuel s)
  unfolding poll
  poll-Ends fuel s v = and_then-Ends fuel (write_loop protocol fuel s) (write_loop-Ends fuel s v)
