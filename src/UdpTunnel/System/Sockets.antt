-- ===== src/UdpTunnel/System/Sockets.antt =====
-- A turn of a socket keeps what holds between the UDP tunnel and its sockets.
use mathlib.Core.List.{map-append}
use pocket_relay_client_shar.Prelude.{
  ℕ, ◌≡◌, ◌≢◌, refl, sym, ap, ◌∙◌, subst, Option, none, List, [], ◌∷◌, ◌++◌, append-nil,
  append_assoc, ==_iff, length, drop, drop-length_append, get_elem?, set_elem, arith,
}
use pocket_relay_client_shar.Polling.{messages, Poll, Run, rests, stops, panics, starves}
use pocket_relay_client_shar.UdpTunnel.Socket.{UdpState}
use pocket_relay_client_shar.Tunnel.Socket.Stream
use pocket_relay_client_shar.Tunnel.Socket.Forward.{received, received-append, Gave, Forwards}
use pocket_relay_client_shar.Tunnel.Socket.Channel as SocketChannel
use pocket_relay_client_shar.Tunnel.System.{socket_arrive}
use pocket_relay_client_shar.Tunnel.System.Channels.{messages-sends}
use pocket_relay_client_shar.Tunnel.System.Places.{AllAt-set_elem, AllAt-absent}
use pocket_relay_client_shar.UdpTunnel.Message.{TunnelMessage, forward, Protocol}
use pocket_relay_client_shar.UdpTunnel.Relay
use pocket_relay_client_shar.UdpTunnel.Relay.Channel as RelayChannel
use pocket_relay_client_shar.UdpTunnel.Relay.Life.{Life, arrives}
use pocket_relay_client_shar.UdpTunnel.System.{
  System, Turn, poll_socket_at, from, given, to_tunnel, from_socket, pool,
}
use pocket_relay_client_shar.UdpTunnel.System.Flow.{
  from-append, wrapped, from-wrapped, from_other-wrapped, payload, Sound, Goes, heard, answers,
  heard-append, answers-append, Flow,
}

channel-to_tunnel :
    (new : List TunnelMessage) (t : Relay.State)
    → RelayChannel.channel (to_tunnel new t).1 ≡ RelayChannel.channel t.1 ++ new
channel-to_tunnel new t =
    ap (λ l. t.1.taken ++ l) (messages-sends t.1.rx new)
    ∙ sym (append_assoc t.1.taken (messages t.1.rx) new)

heard_other :
    (i j : ℕ) (send : List (Poll (Option ℕ))) (recv : List (Poll (Option (List ℕ))))
    (turns : List Turn)
    → i ≢ j
    → heard j (turns ++ (poll_socket_at i send recv ∷ [])) ≡ heard j turns
heard_other i j send recv turns ne =
    let silent : heard j (poll_socket_at i send recv ∷ []) ≡ [] = ground (arith, ne) in
    heard-append j turns (poll_socket_at i send recv ∷ [])
    ∙ ap (λ l. heard j turns ++ l) silent
    ∙ append-nil (heard j turns)

-- The flow of another socket, when the socket at `i` has given the tunnel these messages.
other-Flow :
    (turns : List Turn) (t : Relay.State) (i j : ℕ) (send : List (Poll (Option ℕ)))
    (recv : List (Poll (Option (List ℕ)))) (new : List (List ℕ)) (c : UdpState)
    → i ≢ j
    → Flow turns t j c
    → Flow (turns ++ (poll_socket_at i send recv ∷ [])) (to_tunnel (wrapped i new) t) j c
other-Flow turns t i j send recv new c ne v = record {
  index_eq = v.index_eq;
  inv = v.inv;
  down = v.down;
  datagrams = v.datagrams;
  given_eq = v.given_eq;
  heard_eq = heard_other i j send recv turns ne ∙ v.heard_eq;
  up =
      ap (from j) (channel-to_tunnel (wrapped i new) t)
      ∙ from-append j (RelayChannel.channel t.1) (wrapped i new)
      ∙ ap (λ l. from j (RelayChannel.channel t.1) ++ l) (from_other-wrapped i j new ne)
      ∙ append-nil (from j (RelayChannel.channel t.1))
      ∙ v.up;
}

heard_own :
    (i : ℕ) (send : List (Poll (Option ℕ))) (recv : List (Poll (Option (List ℕ))))
    → heard i (poll_socket_at i send recv ∷ []) ≡ received recv
heard_own i send recv = rw ((==_iff i i).1 refl) (append-nil (received recv))

-- That of the socket itself, after its poll.
own-Flow :
    (turns : List Turn) (t : Relay.State) (i : ℕ) (send : List (Poll (Option ℕ)))
    (recv : List (Poll (Option (List ℕ)))) (c d : UdpState)
    → (v : Flow turns t i c) → Stream.Inv payload d
    → (g : Gave forward (socket_arrive send recv c) d)
    → SocketChannel.channel d.1 ≡ SocketChannel.channel c.1
    → Flow
        (turns ++ (poll_socket_at i send recv ∷ []))
        (to_tunnel (wrapped i (received g.consumed)) t)
        i
        d
own-Flow turns t i send recv c d v inv g kept =
    let new = received g.consumed in
    let gave : d.1.given ≡ c.1.given ++ wrapped i new =
      g.given_eq ∙ ap (λ n. c.1.given ++ wrapped n new) v.index_eq in
    record {
      index_eq = g.index_eq ∙ v.index_eq;
      inv = inv;
      down = kept ∙ v.down;
      datagrams = v.datagrams ++ new;
      given_eq =
          gave
          ∙ ap (λ l. l ++ wrapped i new) v.given_eq
          ∙ sym (map-append (forward i) v.datagrams new);
      heard_eq =
          heard-append i turns (poll_socket_at i send recv ∷ [])
          ∙ ap (λ l. heard i turns ++ l) (heard_own i send recv)
          ∙ ap (λ l. l ++ received recv) v.heard_eq
          ∙ append_assoc v.datagrams (received c.1.recv) (received recv)
          ∙ ap (λ l. v.datagrams ++ l)
              (sym (received-append c.1.recv recv)
                ∙ ap received g.recv_eq
                ∙ received-append g.consumed d.1.recv)
          ∙ sym (append_assoc v.datagrams new (received d.1.recv));
      up =
          ap (from i) (channel-to_tunnel (wrapped i new) t)
          ∙ from-append i (RelayChannel.channel t.1) (wrapped i new)
          ∙ ap (λ l. l ++ from i (wrapped i new)) v.up
          ∙ ap (λ l. c.1.given ++ l) (from-wrapped i new)
          ∙ sym gave;
    }

module _ (protocol : Protocol) (tunnel_id : ℕ) where
  pub socket-Goes :
      (turns : List Turn) (s : System) (i : ℕ) (send : List (Poll (Option ℕ)))
      (recv : List (Poll (Option (List ℕ)))) (c : UdpState) (r : Run UdpState)
      → Sound protocol tunnel_id turns s
      → Flow turns s.tunnel i c
      → Stream.Ends payload r
      → Forwards forward (socket_arrive send recv c) r
      → SocketChannel.Keeps (SocketChannel.channel c.1) r
      → Goes protocol tunnel_id
          (turns ++ (poll_socket_at i send recv ∷ []))
          (from_socket s i c.1.given r)
  socket-Goes turns s i send recv c (stops d) v f inv g kept = tt
  socket-Goes turns s i send recv c panics v f inv g kept = inv
  socket-Goes turns s i send recv c starves v f inv g kept = g
  socket-Goes turns s i send recv c (rests d) v f inv g kept =
      let new = received g.consumed in
      let news : drop (length c.1.given) d.1.given ≡ wrapped i new =
        ap (drop (length c.1.given)) (g.given_eq ∙ ap (λ n. c.1.given ++ wrapped n new) f.index_eq)
        ∙ drop-length_append c.1.given (wrapped i new) in
      let now = turns ++ (poll_socket_at i send recv ∷ []) in
      let lives : Life protocol tunnel_id pool (answers now) (to_tunnel (wrapped i new) s.tunnel) =
        subst (λ o. Life protocol tunnel_id pool o (to_tunnel (wrapped i new) s.tunnel))
          (sym (answers-append turns (poll_socket_at i send recv ∷ [])))
          (arrives (given (wrapped i new)) (tt, omega arith) v.life) in
      subst
        (λ l.
          Sound protocol tunnel_id now
            (record { tunnel = to_tunnel l s.tunnel; sockets = set_elem s.sockets i d }))
        (sym news)
        (record {
          life = lives;
          flows =
              AllAt-set_elem (Flow turns s.tunnel) (Flow now (to_tunnel (wrapped i new) s.tunnel)) i
                s.sockets d (λ j x ne. other-Flow turns s.tunnel i j send recv new x ne)
                (own-Flow turns s.tunnel i send recv c d f inv g kept) v.flows;
        })

  -- A turn of a socket that is not there changes nothing.
  pub absent-Sound :
      (turns : List Turn) (s : System) (i : ℕ) (send : List (Poll (Option ℕ)))
      (recv : List (Poll (Option (List ℕ))))
      → get_elem? s.sockets i ≡ none
      → Sound protocol tunnel_id turns s
      → Sound protocol tunnel_id (turns ++ (poll_socket_at i send recv ∷ [])) s
  absent-Sound turns s i send recv absent v =
      let now = turns ++ (poll_socket_at i send recv ∷ []) in
      let same : answers turns ≡ answers now =
        sym (append-nil (answers turns))
        ∙ sym (answers-append turns (poll_socket_at i send recv ∷ [])) in
      record {
        life = subst (λ o. Life protocol tunnel_id pool o s.tunnel) same v.life;
        flows =
            AllAt-absent (Flow turns s.tunnel) (Flow now s.tunnel) 0 i s.sockets
              (λ j c ne f. stays j c (λ e. ne (omega (arith, e))) f) absent v.flows;
      }
    where
      stays :
          (j : ℕ) (c : UdpState)
          → i ≢ j
          → Flow turns s.tunnel j c
          → Flow (turns ++ (poll_socket_at i send recv ∷ [])) s.tunnel j c
      stays j c ne f = record {
        index_eq = f.index_eq;
        inv = f.inv;
        down = f.down;
        datagrams = f.datagrams;
        given_eq = f.given_eq;
        heard_eq = heard_other i j send recv turns ne ∙ f.heard_eq;
        up = f.up;
      }
