-- ===== src/Tunnel/System/EndToEnd.antt =====
-- Every run of a tunnel with its sockets.
use pocket_relay_client_shar.Prelude.{
  ℕ, ◌≡◌, refl, sym, ap, ◌∙◌, subst, inl, inr, Bool, Option, Option-cases, none, some, List, [],
  ◌∷◌, ◌++◌, append-nil, append_assoc, get_elem?, Outcome, ok, panic, ◌>>=◌, arith,
}
use pocket_relay_client_shar.Polling.{messages, Poll}
use pocket_relay_client_shar.Tunnel.Relay
use pocket_relay_client_shar.Tunnel.Relay.Routing.{tunnel_poll-Routes}
use pocket_relay_client_shar.Tunnel.Relay.Sending.{Inv}
use pocket_relay_client_shar.Tunnel.Relay.Channel as RelayChannel
use pocket_relay_client_shar.Tunnel.Relay.Life.{
  Life, born, arrives, Delivers, Life-Inv, tunnel_poll-Outlives,
}
use pocket_relay_client_shar.Tunnel.Socket.{poll_socket}
use pocket_relay_client_shar.Tunnel.Socket.Stream.{socket_poll-Ends}
use pocket_relay_client_shar.Tunnel.Socket.Forward.{poll-Forwards}
use pocket_relay_client_shar.Tunnel.Socket.Channel as SocketChannel
use pocket_relay_client_shar.Tunnel.System.{
  System, Turn, poll_tunnel, poll_socket_at, from_socket, socket_arrive, relay_fuel, socket_fuel,
  tunnel_arrive, step, and_so_on, run, new_socket, new_system,
}
use pocket_relay_client_shar.Tunnel.System.Places.{AllAt, AllAt-get_elem?}
use pocket_relay_client_shar.Tunnel.System.Flow.{
  pool, Sound, Goes, payload, wrap, answers, answers-append, Flow,
}
use pocket_relay_client_shar.Tunnel.System.Sockets.{socket-Goes, absent-Sound}
use pocket_relay_client_shar.Tunnel.System.Deliveries.{tunnel-Goes}

poll_tunnel-Goes :
    (turns : List Turn) (r f : List (Poll Bool)) (n : List (Poll Relay.Next)) (s : System)
    → Sound turns s
    → Goes (turns ++ (poll_tunnel r f n ∷ [])) (step (poll_tunnel r f n) s)
unfolding step
poll_tunnel-Goes turns r f n s v =
    let t = tunnel_arrive r f n s.tunnel in
    let now = turns ++ (poll_tunnel r f n ∷ []) in
    let offers : answers turns ++ n ≡ answers now =
      ap (λ l. answers turns ++ l) (sym (append-nil n))
      ∙ sym (answers-append turns (poll_tunnel r f n ∷ [])) in
    let life : Life pool (answers now) t =
      subst (λ o. Life pool o t) offers
        (arrives (record { rx = []; ready = r; flushed = f; next = n }) v.life) in
    tunnel-Goes turns s r f n (Relay.poll (relay_fuel t) t) v life refl
      (tunnel_poll-Outlives (relay_fuel t) life (omega arith) (omega arith))
      (tunnel_poll-Routes (relay_fuel t) t (omega arith) (omega arith))
      (RelayChannel.poll-Keeps (RelayChannel.channel s.tunnel.1) (relay_fuel t) t
        (ap (λ l. s.tunnel.1.taken ++ messages l) (append-nil s.tunnel.1.rx)))

poll_socket-Goes :
    (turns : List Turn) (i : ℕ) (send : List (Poll (Option ℕ)))
    (recv : List (Poll (Option (List ℕ)))) (s : System)
    → Sound turns s
    → Goes (turns ++ (poll_socket_at i send recv ∷ [])) (step (poll_socket_at i send recv) s)
unfolding step poll_socket
poll_socket-Goes turns i send recv s v = elim (Option-cases (get_elem? s.sockets i)) [
  | inl absent ↦
      let e : step (poll_socket_at i send recv) s ≡ ok (some s) = rw (step, absent) in
      subst (Goes (turns ++ (poll_socket_at i send recv ∷ []))) (sym e)
        (absent-Sound turns s i send recv absent v)
  | inr (c, present) ↦
      let d = socket_arrive send recv c in
      let flow = AllAt-get_elem? (Flow turns s.tunnel) i s.sockets c v.flows present in
      let e : step (poll_socket_at i send recv) s
          ≡ from_socket s i c.1.given (poll_socket (socket_fuel d) d) =
        rw (step, present) in
      subst (Goes (turns ++ (poll_socket_at i send recv ∷ []))) (sym e) (
        socket-Goes turns s i send recv c (poll_socket (socket_fuel d) d) v flow
          (socket_poll-Ends payload wrap (socket_fuel d) d
            (record { live = flow.inv.live; ledger = flow.inv.ledger }))
          (poll-Forwards wrap payload (socket_fuel d) d (omega arith) (omega arith))
          (SocketChannel.poll-Keeps (SocketChannel.channel c.1) payload wrap (socket_fuel d) d
            refl))
]

step-Goes :
    (turns : List Turn) (turn : Turn) (s : System)
    → Sound turns s
    → Goes (turns ++ (turn ∷ [])) (step turn s)
step-Goes turns (poll_tunnel r f n) s v = poll_tunnel-Goes turns r f n s v
step-Goes turns (poll_socket_at i send recv) s v = poll_socket-Goes turns i send recv s v

so_on-Goes :
    (seen turns : List Turn) (rest : System → Outcome (Option System)) (r : Outcome (Option System))
    → ((s : System) → Sound seen s → Goes (seen ++ turns) (rest s))
    → Goes seen r
    → Goes (seen ++ turns) (r >>= and_so_on rest)
so_on-Goes seen turns rest panic h v = v
so_on-Goes seen turns rest (ok none) h v = tt
so_on-Goes seen turns rest (ok (some s)) h v = h s v

run_keeps-Goes :
    (seen turns : List Turn) (s : System) → Sound seen s → Goes (seen ++ turns) (run turns s)
unfolding run
run_keeps-Goes seen [] s v = subst (λ l. Sound l s) (sym (append-nil seen)) v
run_keeps-Goes seen (turn ∷ turns) s v =
    subst (λ l. Goes l (run (turn ∷ turns) s)) (append_assoc seen (turn ∷ []) turns)
      (so_on-Goes (seen ++ (turn ∷ [])) turns (run turns) (step turn s)
        (run_keeps-Goes (seen ++ (turn ∷ [])) turns) (step-Goes seen turn s v))

new_socket-Flow : (i : ℕ) → Flow [] new_system.tunnel i (new_socket i)
new_socket-Flow i = record {
  index_eq = refl;
  inv = record { live = tt; ledger = refl };
  down = refl;
  datagrams = [];
  given_eq = refl;
  heard_eq = refl;
  up = refl;
}

-- What is so after these turns, if no future has ended.
abbrev pub Passes : List Turn → Outcome (Option System) → Type 0
Passes turns panic = ⊥
Passes turns (ok none) = Unit
Passes turns (ok (some s)) =
    Inv s.tunnel × Delivers pool (answers turns) s.tunnel × AllAt (Flow turns s.tunnel) 0 s.sockets

passes : (turns : List Turn) (r : Outcome (Option System)) → Goes turns r → Passes turns r
passes turns panic v = v
passes turns (ok none) v = tt
passes turns (ok (some s)) v = let (sends, delivers) = Life-Inv v.life in (sends, delivers, v.flows)

-- In whatever order the tunnel and its four sockets have their turns, and whatever the connection and
-- the local network answer, no turn panics; and as long as no future has ended, everything goes through
-- in order and under the right index. Downwards: of what the connection had to give, a part was read,
-- each message of it went to the socket of its index, and what the socket has sent to the game and has
-- left are the bytes of the messages that it took, while the others wait in its channel. Upwards: of
-- the datagrams of the game, each socket gave the tunnel those that it has read, under its index, and
-- they are the messages of this index that the tunnel took or that wait in its channel; those that the
-- tunnel took it has sent to the server, but for one at most, keep-alives aside.
pub system_run-Passes : (turns : List Turn) → Passes turns (run turns new_system)
system_run-Passes turns = passes turns (run turns new_system) (
    run_keeps-Goes [] turns new_system (record {
      life = born;
      flows =
          (new_socket-Flow 0, (new_socket-Flow 1, (new_socket-Flow 2, (new_socket-Flow 3, tt))));
    }))
