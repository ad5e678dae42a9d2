-- ===== src/UdpTunnel/System/Fifo.antt =====
-- The UDP tunnel with its sockets as a pair of queues for each socket: what leaves at one end came in
-- at the other, in order; on the way to the server, a reply to a keep-alive may take the place of a
-- message.
use mathlib.Core.List.{map-append}
use pocket_relay_client_shar.Prelude.{
  ok, some, ℕ, zero, suc, ◌<◌, ◌≡◌, refl, sym, ap, ◌∙◌, subst, Option, none, List, [], ◌∷◌, ◌++◌,
  append_assoc, map, get_elem?, All, arith,
}
use pocket_relay_client_shar.Polling.{messages, Poll, pending, ready}
use pocket_relay_client_shar.Framing.{concat}
use pocket_relay_client_shar.UdpTunnel.Socket.{UdpState}
use pocket_relay_client_shar.Tunnel.Socket.Bytes.{left, concat-append}
use pocket_relay_client_shar.Tunnel.Socket.Forward.{received}
use pocket_relay_client_shar.Tunnel.System.{sent_to}
use pocket_relay_client_shar.Tunnel.System.Channels.{sent_to-append}
use pocket_relay_client_shar.Tunnel.System.Places.{AllAt-get_elem?}
use pocket_relay_client_shar.Tunnel.System.Fifo.{IsPrefix}
use pocket_relay_client_shar.UdpTunnel.Message.{
  TunnelMessage, initiate, initiated, forward, keep_alive, Protocol,
}
use pocket_relay_client_shar.UdpTunnel.Relay
use pocket_relay_client_shar.UdpTunnel.Relay.Writing.{in_flight, datagrams}
use pocket_relay_client_shar.UdpTunnel.Relay.Ledger.{Accounted}
use pocket_relay_client_shar.UdpTunnel.Relay.Route.{route_message, route_packet, route}
use pocket_relay_client_shar.UdpTunnel.Relay.Life.{Delivers}
use pocket_relay_client_shar.UdpTunnel.System.{System, Turn, FairTurn, from, run, pool, new_system}
use pocket_relay_client_shar.UdpTunnel.System.Flow.{
  from-append, wrapped, payload, heard, answers, Flow,
}
use pocket_relay_client_shar.UdpTunnel.System.EndToEnd.{Passes, udp_system_run-Passes}
use pocket_relay_client_shar.UdpTunnel.System.Sublists.{
  IsSublist, IsSublist-append, IsSublist-front, from-Thins,
}

-- The payload of a forwarded message.
abbrev pub payload_of : TunnelMessage → List ℕ
payload_of (forward index message) = message
payload_of _ = []

abbrev pub payloads : List TunnelMessage → List (List ℕ)
payloads ms = map payload_of ms

-- The pool has the socket of each index at the place of that index.
sent_to-route_forward :
    (i index : ℕ) (message : List ℕ)
    → i < 4
    → sent_to i (route_message pool (forward index message))
      ≡ payloads (from i (forward index message ∷ []))
sent_to-route_forward i zero message h = ground arith
sent_to-route_forward i (suc zero) message h = ground arith
sent_to-route_forward i (suc (suc zero)) message h = ground arith
sent_to-route_forward i (suc (suc (suc zero))) message h = ground arith
sent_to-route_forward i (suc (suc (suc (suc index)))) message h = ground arith

map-payload : (ms : List (List ℕ)) → map payload ms ≡ ms
map-payload [] = refl
map-payload (m ∷ ms) = ap (◌∷◌ m) (map-payload ms)

module _ (protocol : Protocol) where
  open protocol use {deserialize_message}

  abbrev pub packet : Option TunnelMessage → List TunnelMessage
  packet none = []
  packet (some m) = m ∷ []

  -- The messages in the datagrams that the socket of the tunnel gave.
  abbrev pub items : List (Poll (Option (List ℕ))) → List TunnelMessage
  items [] = []
  items (ready (some buffer) ∷ script) = packet (deserialize_message buffer) ++ items script
  items (_ ∷ script) = items script

  items-append : (xs ys : List (Poll (Option (List ℕ)))) → items (xs ++ ys) ≡ items xs ++ items ys
  items-append [] ys = refl
  items-append (pending ∷ xs) ys = items-append xs ys
  items-append (ready none ∷ xs) ys = items-append xs ys
  items-append (ready (some buffer) ∷ xs) ys =
      ap (λ l. packet (deserialize_message buffer) ++ l) (items-append xs ys)
      ∙ sym (append_assoc (packet (deserialize_message buffer)) (items xs) (items ys))

  sent_to-route_packet :
      (i : ℕ) (m : Option TunnelMessage)
      → i < 4
      → sent_to i (route_packet pool m) ≡ payloads (from i (packet m))
  sent_to-route_packet i none h = refl
  sent_to-route_packet i (some (forward index message)) h = sent_to-route_forward i index message h
  sent_to-route_packet i (some (initiate token)) h = refl
  sent_to-route_packet i (some (initiated tunnel_id)) h = refl
  sent_to-route_packet i (some keep_alive) h = refl

  payloads_from-append :
      (i : ℕ) (xs ys : List TunnelMessage)
      → payloads (from i (xs ++ ys)) ≡ payloads (from i xs) ++ payloads (from i ys)
  payloads_from-append i xs ys =
      ap payloads (from-append i xs ys) ∙ map-append payload_of (from i xs) (from i ys)

  sent_to-route :
      (i : ℕ) (script : List (Poll (Option (List ℕ))))
      → i < 4
      → sent_to i (route protocol pool script) ≡ payloads (from i (items script))
  sent_to-route i [] h = refl
  sent_to-route i (pending ∷ script) h = sent_to-route i script h
  sent_to-route i (ready none ∷ script) h = sent_to-route i script h
  sent_to-route i (ready (some buffer) ∷ script) h =
      let m = deserialize_message buffer in
      sent_to-append i (route_packet pool m) (route protocol pool script)
      ∙ ap (λ l. l ++ sent_to i (route protocol pool script)) (sent_to-route_packet i m h)
      ∙ ap (λ l. payloads (from i (packet m)) ++ l) (sent_to-route i script h)
      ∙ sym (payloads_from-append i (packet m) (items script))

  downwards :
      (turns : List Turn) (t : Relay.State) (i : ℕ) (c : UdpState)
      → i < 4
      → Delivers protocol pool (answers turns) t
      → Flow turns t i c
      → IsPrefix (concat c.1.sent) (concat (payloads (from i (items (answers turns)))))
  downwards turns t i c h d v =
      let waiting = messages c.1.rx in
      let unread = payloads (from i (items t.1.recv)) in
      let all : payloads (from i (items (answers turns))) ≡ (c.1.taken ++ waiting) ++ unread =
        ap (λ l. payloads (from i (items l))) d.offered_eq
        ∙ ap (λ l. payloads (from i l)) (items-append d.consumed t.1.recv)
        ∙ payloads_from-append i (items d.consumed) (items t.1.recv)
        ∙ ap (λ l. l ++ unread)
            (sym (sent_to-route i d.consumed h)
              ∙ ap (sent_to i) (sym d.delivered_eq)
              ∙ sym v.down) in
      let sends : concat c.1.sent ++ left c.0.write_state ≡ concat c.1.taken =
        v.inv.ledger ∙ ap concat (map-payload c.1.taken) in
      (
        left c.0.write_state ++ (concat waiting ++ concat unread),
        sym (
              append_assoc (concat c.1.sent) (left c.0.write_state)
                (concat waiting ++ concat unread))
            ∙ ap (λ l. l ++ (concat waiting ++ concat unread)) sends
            ∙ sym (append_assoc (concat c.1.taken) (concat waiting) (concat unread))
            ∙ ap (λ l. l ++ concat unread) (sym (concat-append c.1.taken waiting))
            ∙ sym (concat-append (c.1.taken ++ waiting) unread)
            ∙ ap concat (sym all),
      )

  -- The datagrams that were sent hold messages, with the id of the tunnel; those of this index are some
  -- of the datagrams of the game.
  pub record Forwarded (tunnel_id : ℕ) (turns : List Turn) (i : ℕ) (sent : List (List ℕ))
      : Type 0 where
    pub messages : List TunnelMessage
    pub sent_eq : sent ≡ datagrams protocol tunnel_id messages
    pub heard_some : IsSublist (from i messages) (wrapped i (heard i turns))

  upwards :
      (tunnel_id : ℕ) (turns : List Turn) (t : Relay.State) (i : ℕ) (c : UdpState)
      → Accounted protocol tunnel_id t
      → Flow turns t i c
      → Forwarded tunnel_id turns i t.1.sent
  upwards tunnel_id turns t i c (inv, l) v =
      let flying = in_flight t.0.write_state in
      let waiting = from i (messages t.1.rx) in
      let unread = wrapped i (received c.1.recv) in
      let all : (from i t.1.taken ++ waiting) ++ unread ≡ wrapped i (heard i turns) =
        ap (λ l. l ++ unread) (sym (from-append i t.1.taken (messages t.1.rx)) ∙ v.up ∙ v.given_eq)
        ∙ sym (map-append _ v.datagrams (received c.1.recv))
        ∙ ap (wrapped i) (sym v.heard_eq) in
      record {
        messages = l.messages;
        sent_eq = l.sent_eq;
        heard_some = subst (IsSublist (from i l.messages)) all (
            IsSublist-append unread (
              IsSublist-append waiting (
                IsSublist-front (from i l.messages) (from i flying) (from i t.1.taken) (
                  subst (λ ms. IsSublist ms (from i t.1.taken)) (from-append i l.messages flying)
                    (from-Thins i l.thins)))));
      }

  -- A UDP tunnel and its sockets are, for each socket, two queues: in every state that they reach,
  -- in whatever order they had their turns, as long as no future has ended and the socket of the
  -- tunnel takes a datagram whenever it said that it is ready, what the socket has sent to the game
  -- is a beginning of the payloads of the messages with its index in the datagrams that the socket
  -- of the tunnel had to give; and the datagrams that the tunnel has sent hold messages, each with
  -- the tunnel's id, of which those with the socket's index are some of the datagrams that the game
  -- had sent, in their order and each under that index.
  pub udp_system_run-Forwarded :
      (tunnel_id now : ℕ) (turns : List Turn) (s : System) (i : ℕ) (c : UdpState)
      → All FairTurn turns
      → run protocol turns (new_system tunnel_id now) ≡ ok (some s)
      → get_elem? s.sockets i ≡ some c
      → i < 4
      → IsPrefix (concat c.1.sent) (concat (payloads (from i (items (answers turns)))))
        × Forwarded tunnel_id turns i s.tunnel.1.sent
  udp_system_run-Forwarded tunnel_id now turns s i c fair e present h =
      let passed : Passes protocol tunnel_id turns (ok (some s)) =
        subst (Passes protocol tunnel_id turns) e
          (udp_system_run-Passes protocol tunnel_id now turns fair) in
      let (account, delivers, flows) = passed in
      let v = AllAt-get_elem? (Flow turns s.tunnel) i s.sockets c flows present in
      (downwards turns s.tunnel i c h delivers v, upwards tunnel_id turns s.tunnel i c account v)
