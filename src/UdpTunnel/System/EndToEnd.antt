-- ===== src/UdpTunnel/System/EndToEnd.antt =====
-- Every run of a UDP tunnel with its sockets.
use pocket_relay_client_shar.Prelude.{
  ℕ, ◌≡◌, refl, sym, ap, ◌∙◌, subst, inl, inr, Option, Option-cases, none, some, List, [], ◌∷◌,
  ◌++◌, append-nil, append_assoc, get_elem?, Outcome, ok, panic, ◌>>=◌, All, arith,
}
use pocket_relay_client_shar.Polling.{messages, Poll}
use pocket_relay_client_shar.Tunnel.Socket.{poll}
use pocket_relay_client_shar.UdpTunnel.Socket.{poll_udp_socket}
use pocket_relay_client_shar.UdpTunnel.Socket.Agreement.{poll_udp_socket-agrees}
use pocket_relay_client_shar.Tunnel.Socket.Stream.{socket_poll-Ends}
use pocket_relay_client_shar.Tunnel.Socket.Forward.{poll-Forwards}
use pocket_relay_client_shar.Tunnel.Socket.Channel as SocketChannel
use pocket_relay_client_shar.Tunnel.System.{socket_arrive, socket_fuel, new_socket}
use pocket_relay_client_shar.Tunnel.System.Places.{AllAt, AllAt-get_elem?}
use pocket_relay_client_shar.UdpTunnel.Message.{forward, Protocol}
use pocket_relay_client_shar.UdpTunnel.Relay
use pocket_relay_client_shar.UdpTunnel.Relay.Routing.{udp_poll-Routes}
use pocket_relay_client_shar.UdpTunnel.Relay.Ledger.{Accounted}
use pocket_relay_client_shar.UdpTunnel.Relay.Channel as RelayChannel
use pocket_relay_client_shar.UdpTunnel.Relay.Life.{
  Arrival, IsFair, arrive, Life, born, arrives, Delivers, Life-Accounted, udp_poll-Outlives,
}
use pocket_relay_client_shar.UdpTunnel.System.{
  System, Turn, poll_tunnel, poll_socket_at, outside, FairTurn, from_socket, relay_fuel, step,
  and_so_on, run, pool, new_system,
}
use pocket_relay_client_shar.UdpTunnel.System.Flow.{
  Sound, Goes, payload, answers, answers-append, Flow,
}
use pocket_relay_client_shar.UdpTunnel.System.Sockets.{socket-Goes, absent-Sound}
use pocket_relay_client_shar.UdpTunnel.System.Deliveries.{tunnel-Goes}

new_socket-Flow : (tunnel_id now i : ℕ) → Flow [] (new_system tunnel_id now).tunnel i (new_socket i)
new_socket-Flow tunnel_id now i = record {
  index_eq = refl;
  inv = record { live = tt; ledger = refl };
  down = refl;
  datagrams = [];
  given_eq = refl;
  heard_eq = refl;
  up = refl;
}

module _ (protocol : Protocol) (tunnel_id : ℕ) where
  poll_tunnel-Goes :
      (turns : List Turn) (a : Arrival) (s : System)
      → IsFair a
      → Sound protocol tunnel_id turns s
      → Goes protocol tunnel_id (turns ++ (poll_tunnel a ∷ [])) (step protocol (poll_tunnel a) s)
  unfolding step
  poll_tunnel-Goes turns a s fair v =
      let t = arrive (outside a) s.tunnel in
      let now = turns ++ (poll_tunnel a ∷ []) in
      let offers : answers turns ++ a.recv ≡ answers now =
        ap (λ l. answers turns ++ l) (sym (append-nil a.recv))
        ∙ sym (answers-append turns (poll_tunnel a ∷ [])) in
      let life : Life protocol tunnel_id pool (answers now) t =
        subst (λ o. Life protocol tunnel_id pool o t) offers (arrives (outside a) fair v.life) in
      let total = RelayChannel.channel s.tunnel.1 in
      tunnel-Goes protocol tunnel_id turns s a (Relay.poll protocol (relay_fuel t) t) v life refl
        (udp_poll-Outlives protocol tunnel_id (relay_fuel t) life (omega arith) (omega arith))
        (udp_poll-Routes protocol (relay_fuel t) t (omega arith) (omega arith))
        (RelayChannel.poll-Carries protocol tunnel_id total (relay_fuel t) t (
          (Life-Accounted protocol tunnel_id life).0,
          ap (λ l. s.tunnel.1.taken ++ messages l) (append-nil s.tunnel.1.rx),
        ))

  poll_socket-Goes :
      (turns : List Turn) (i : ℕ) (send : List (Poll (Option ℕ)))
      (recv : List (Poll (Option (List ℕ)))) (s : System)
      → Sound protocol tunnel_id turns s
      → Goes protocol tunnel_id
          (turns ++ (poll_socket_at i send recv ∷ []))
          (step protocol (poll_socket_at i send recv) s)
  unfolding step
  poll_socket-Goes turns i send recv s v =
      let now = turns ++ (poll_socket_at i send recv ∷ []) in
      elim (Option-cases (get_elem? s.sockets i)) [
        | inl absent ↦
            let e : step protocol (poll_socket_at i send recv) s ≡ ok (some s) =
              rw (step, absent) in
            subst (Goes protocol tunnel_id now) (sym e)
              (absent-Sound protocol tunnel_id turns s i send recv absent v)
        | inr (c, present) ↦
            let d = socket_arrive send recv c in
            let flow = AllAt-get_elem? (Flow turns s.tunnel) i s.sockets c v.flows present in
            let e : step protocol (poll_socket_at i send recv) s
                ≡ from_socket s i c.1.given (poll payload forward (socket_fuel d) d) =
              let own : step protocol (poll_socket_at i send recv) s
                  ≡ from_socket s i c.1.given (poll_udp_socket (socket_fuel d) d) =
                rw (step, present) in
              own ∙ ap (from_socket s i c.1.given) (poll_udp_socket-agrees (socket_fuel d) d) in
            subst (Goes protocol tunnel_id now) (sym e) (
              socket-Goes protocol tunnel_id turns s i send recv c
                (poll payload forward (socket_fuel d) d) v flow
                (socket_poll-Ends payload forward (socket_fuel d) d
                  (record { live = flow.inv.live; ledger = flow.inv.ledger }))
                (poll-Forwards forward payload (socket_fuel d) d (omega arith) (omega arith))
                (SocketChannel.poll-Keeps (SocketChannel.channel c.1) payload forward
                  (socket_fuel d) d refl))
      ]

  step-Goes :
      (turns : List Turn) (turn : Turn) (s : System)
      → FairTurn turn
      → Sound protocol tunnel_id turns s
      → Goes protocol tunnel_id (turns ++ (turn ∷ [])) (step protocol turn s)
  step-Goes turns (poll_tunnel a) s fair v = poll_tunnel-Goes turns a s fair v
  step-Goes turns (poll_socket_at i send recv) s fair v = poll_socket-Goes turns i send recv s v

  so_on-Goes :
      (seen turns : List Turn) (rest : System → Outcome (Option System))
      (r : Outcome (Option System))
      → ((s : System)
          → Sound protocol tunnel_id seen s
          → Goes protocol tunnel_id (seen ++ turns) (rest s))
      → Goes protocol tunnel_id seen r
      → Goes protocol tunnel_id (seen ++ turns) (r >>= and_so_on rest)
  so_on-Goes seen turns rest panic h v = v
  so_on-Goes seen turns rest (ok none) h v = tt
  so_on-Goes seen turns rest (ok (some s)) h v = h s v

  run_keeps-Goes :
      (seen turns : List Turn) (s : System)
      → All FairTurn turns
      → Sound protocol tunnel_id seen s
      → Goes protocol tunnel_id (seen ++ turns) (run protocol turns s)
  unfolding run
  run_keeps-Goes seen [] s fair v =
      subst (λ l. Sound protocol tunnel_id l s) (sym (append-nil seen)) v
  run_keeps-Goes seen (turn ∷ turns) s fair v =
      subst (λ l. Goes protocol tunnel_id l (run protocol (turn ∷ turns) s))
        (append_assoc seen (turn ∷ []) turns)
        (so_on-Goes (seen ++ (turn ∷ [])) turns (run protocol turns) (step protocol turn s)
          (λ t. run_keeps-Goes (seen ++ (turn ∷ [])) turns t fair.1)
          (step-Goes seen turn s fair.0 v))

  -- What is so after these turns, if no future has ended.
  abbrev pub Passes : List Turn → Outcome (Option System) → Type 0
  Passes turns panic = ⊥
  Passes turns (ok none) = Unit
  Passes turns (ok (some s)) =
      Accounted protocol tunnel_id s.tunnel
      × Delivers protocol pool (answers turns) s.tunnel
      × AllAt (Flow turns s.tunnel) 0 s.sockets

  passes :
      (turns : List Turn) (r : Outcome (Option System))
      → Goes protocol tunnel_id turns r
      → Passes turns r
  passes turns panic v = v
  passes turns (ok none) v = tt
  passes turns (ok (some s)) v =
      let (sends, delivers) = Life-Accounted protocol tunnel_id v.life in (sends, delivers, v.flows)

  -- In whatever order a UDP tunnel, made at this time, and its four sockets have their turns, and
  -- whatever the connection, the clock and the local network answer, as long as the socket of the tunnel
  -- takes a datagram whenever it said that it is ready, no turn panics; and as long as no future has
  -- ended, everything goes through in order and under the right index. Downwards: of the datagrams that
  -- the socket of the tunnel had to give, a part was read, each message forwarded in one of them went to
  -- the socket of its index, and what this socket has sent to the game and has left are the bytes of the
  -- messages that it took, while the others wait in its channel. Upwards: of the datagrams of the game,
  -- each socket gave the tunnel those that it has read, under its index, and they are the messages of
  -- this index that the tunnel took or that wait in its channel; those that the tunnel took it has sent
  -- with its id, but for the one in the write state, and but for keep-alives, each of which was added or
  -- took the place of one message.
  pub udp_system_run-Passes :
      (now : ℕ) (turns : List Turn)
      → All FairTurn turns
      → Passes turns (run protocol turns (new_system tunnel_id now))
  udp_system_run-Passes now turns fair =
      passes turns (run protocol turns (new_system tunnel_id now)) (
        run_keeps-Goes [] turns (new_system tunnel_id now) fair (record {
          life = born now;
          flows = (
            new_socket-Flow tunnel_id now 0,
            (
              new_socket-Flow tunnel_id now 1,
              (new_socket-Flow tunnel_id now 2, (new_socket-Flow tunnel_id now 3, tt)),
            ),
          );
        }))
