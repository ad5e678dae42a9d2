-- ===== src/Tunnel/System/Fifo.antt =====
-- The tunnel with its sockets as a pair of queues for each socket: what leaves at one end is a
-- beginning of what came in at the other.
use mathlib.Core.List.{map-append}
use pocket_relay_client_shar.Prelude.{
  ok, some, ℕ, zero, suc, ◌<◌, ◌≡◌, refl, sym, ap, ◌∙◌, subst, List, [], ◌∷◌, ◌++◌, append_assoc,
  map, get_elem?, arith,
}
use pocket_relay_client_shar.Polling.{messages, Poll, pending, ready}
use pocket_relay_client_shar.Framing.{concat}
use pocket_relay_client_shar.Tunnel.Codec.{TunnelMessage}
use pocket_relay_client_shar.Tunnel.Relay
use pocket_relay_client_shar.Tunnel.Relay.{Next, item, failed, closed}
use pocket_relay_client_shar.Tunnel.Relay.Sending.{data_of, in_flight, Inv}
use pocket_relay_client_shar.Tunnel.Relay.Messages.{route, route_message}
use pocket_relay_client_shar.Tunnel.Relay.Life.{Delivers}
use pocket_relay_client_shar.Tunnel.Socket.Bytes.{left, concat-append}
use pocket_relay_client_shar.Tunnel.Socket.Forward.{received}
use pocket_relay_client_shar.Tunnel.System.{
  System, SocketState, Turn, sent_to, from, run, new_system,
}
use pocket_relay_client_shar.Tunnel.System.Channels.{sent_to-append, from-append, wrapped}
use pocket_relay_client_shar.Tunnel.System.Places.{AllAt-get_elem?}
use pocket_relay_client_shar.Tunnel.System.Flow.{pool, payload, heard, answers, Flow}
use pocket_relay_client_shar.Tunnel.System.EndToEnd.{Passes, system_run-Passes}

abbrev pub IsPrefix {ℓ} : {A : Type ℓ} → List A → List A → Type ℓ
IsPrefix {A} xs ys = (rest : List A) × (xs ++ rest ≡ ys)

-- The messages that the connection gave.
abbrev pub items : List (Poll Next) → List TunnelMessage
items [] = []
items (ready (item m) ∷ script) = m ∷ items script
items (_ ∷ script) = items script

items-append : (xs ys : List (Poll Next)) → items (xs ++ ys) ≡ items xs ++ items ys
items-append [] ys = refl
items-append (pending ∷ xs) ys = items-append xs ys
items-append (ready failed ∷ xs) ys = items-append xs ys
items-append (ready closed ∷ xs) ys = items-append xs ys
items-append (ready (item m) ∷ xs) ys = ap (◌∷◌ m) (items-append xs ys)

-- The pool has the socket of each index at the place of that index.
sent_to-route_message :
    (i index : ℕ) (message : List ℕ)
    → i < 4
    → sent_to i (route_message pool (record { index = index; message = message }))
      ≡ from i (record { index = index; message = message } ∷ [])
sent_to-route_message i zero message h = refl
sent_to-route_message i (suc zero) message h = refl
sent_to-route_message i (suc (suc zero)) message h = refl
sent_to-route_message i (suc (suc (suc zero))) message h = refl
sent_to-route_message i (suc (suc (suc (suc index)))) message h = ground arith

sent_to-route :
    (i : ℕ) (script : List (Poll Next))
    → i < 4
    → sent_to i (route pool script) ≡ from i (items script)
sent_to-route i [] h = refl
sent_to-route i (pending ∷ script) h = sent_to-route i script h
sent_to-route i (ready failed ∷ script) h = sent_to-route i script h
sent_to-route i (ready closed ∷ script) h = sent_to-route i script h
sent_to-route i (ready (item m) ∷ script) h =
    sent_to-append i (route_message pool m) (route pool script)
    ∙ ap (λ l. l ++ sent_to i (route pool script)) (sent_to-route_message i m.index m.message h)
    ∙ ap (λ l. from i (m ∷ []) ++ l) (sent_to-route i script h)
    ∙ sym (from-append i (m ∷ []) (items script))

-- Keep-alives have no socket.
from-data_of : (i : ℕ) (ms : List TunnelMessage) → i < 4 → from i (data_of ms) ≡ from i ms
from-data_of i [] h = refl
from-data_of i (m ∷ ms) h = ground (arith, from-data_of i ms h)

abbrev pub payloads : List TunnelMessage → List ℕ
payloads ms = concat (map payload ms)

pub payloads-append :
    (xs ys : List TunnelMessage) → payloads (xs ++ ys) ≡ payloads xs ++ payloads ys
payloads-append xs ys =
    ap concat (map-append payload xs ys) ∙ concat-append (map payload xs) (map payload ys)

downwards :
    (turns : List Turn) (t : Relay.State) (i : ℕ) (c : SocketState)
    → i < 4
    → Delivers pool (answers turns) t
    → Flow turns t i c
    → IsPrefix (concat c.1.sent) (payloads (from i (items (answers turns))))
downwards turns t i c h d v =
    let waiting = payloads (messages c.1.rx) in
    let unread = from i (items t.1.next) in
    let all : from i (items (answers turns)) ≡ (c.1.taken ++ messages c.1.rx) ++ unread =
      ap (λ l. from i (items l)) d.offered_eq
      ∙ ap (from i) (items-append d.consumed t.1.next)
      ∙ from-append i (items d.consumed) (items t.1.next)
      ∙ ap (λ l. l ++ unread)
          (sym (sent_to-route i d.consumed h) ∙ ap (sent_to i) (sym d.delivered_eq) ∙ sym v.down) in
    (
      left c.0.write_state ++ (waiting ++ payloads unread),
      sym (append_assoc (concat c.1.sent) (left c.0.write_state) (waiting ++ payloads unread))
          ∙ ap (λ l. l ++ (waiting ++ payloads unread)) v.inv.ledger
          ∙ sym (append_assoc (payloads c.1.taken) waiting (payloads unread))
          ∙ ap (λ l. l ++ payloads unread) (sym (payloads-append c.1.taken (messages c.1.rx)))
          ∙ sym (payloads-append (c.1.taken ++ messages c.1.rx) unread)
          ∙ ap payloads (sym all),
    )

upwards :
    (turns : List Turn) (t : Relay.State) (i : ℕ) (c : SocketState)
    → i < 4
    → Inv t
    → Flow turns t i c
    → IsPrefix (from i t.1.sent) (wrapped i (heard i turns))
upwards turns t i c h inv v =
    let flying = from i (in_flight t.0.write_state) in
    let waiting = from i (messages t.1.rx) in
    let unread = wrapped i (received c.1.recv) in
    let sends : from i t.1.sent ++ flying ≡ from i t.1.taken =
      ap (λ l. l ++ flying) (sym (from-data_of i t.1.sent h))
      ∙ ap (λ l. from i (data_of t.1.sent) ++ l)
          (sym (from-data_of i (in_flight t.0.write_state) h))
      ∙ sym (from-append i (data_of t.1.sent) (data_of (in_flight t.0.write_state)))
      ∙ ap (from i) inv.ledger
      ∙ from-data_of i t.1.taken h in
    (
      flying ++ (waiting ++ unread),
      sym (append_assoc (from i t.1.sent) flying (waiting ++ unread))
          ∙ ap (λ l. l ++ (waiting ++ unread)) sends
          ∙ sym (append_assoc (from i t.1.taken) waiting unread)
          ∙ ap (λ l. l ++ unread)
              (sym (from-append i t.1.taken (messages t.1.rx)) ∙ v.up ∙ v.given_eq)
          ∙ sym (map-append _ v.datagrams (received c.1.recv))
          ∙ ap (wrapped i) (sym v.heard_eq),
    )

-- A tunnel and its sockets are, for each socket, two queues of bytes and of datagrams: in every
-- state that they reach, in whatever order they had their turns, as long as no future has ended,
-- what the socket has sent to the game is a beginning of the payloads of the messages with its index
-- that the connection gave; and the messages with its index that the tunnel has sent are a beginning
-- of the datagrams that the game had sent, each under that index.
pub system_run-IsPrefix :
    (turns : List Turn) (s : System) (i : ℕ) (c : SocketState)
    → run turns new_system ≡ ok (some s)
    → get_elem? s.sockets i ≡ some c
    → i < 4
    → IsPrefix (concat c.1.sent) (payloads (from i (items (answers turns))))
      × IsPrefix (from i s.tunnel.1.sent) (wrapped i (heard i turns))
system_run-IsPrefix turns s i c e present h =
    let passed : Passes turns (ok (some s)) = subst (Passes turns) e (system_run-Passes turns) in
    let (inv, delivers, flows) = passed in
    let v = AllAt-get_elem? (Flow turns s.tunnel) i s.sockets c flows present in
    (downwards turns s.tunnel i c h delivers v, upwards turns s.tunnel i c h inv v)
