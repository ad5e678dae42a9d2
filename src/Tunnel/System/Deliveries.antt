-- ===== src/Tunnel/System/Deliveries.antt =====
-- A turn of the tunnel keeps what holds between it and its sockets.

use pocket_relay_client_shar.Prelude.{
  ℕ, suc, ◌≡◌, sym, ap, ◌∙◌, subst, Bool, List, [], ◌∷◌, ◌++◌, append-nil, append_assoc, length,
  drop, drop-length_append, arith,
}
use pocket_relay_client_shar.Polling.{messages, Poll, Run, rests, stops, panics, starves}
use pocket_relay_client_shar.Tunnel.Codec.{TunnelMessage}
use pocket_relay_client_shar.Tunnel.Relay
use pocket_relay_client_shar.Tunnel.Relay.Messages
use pocket_relay_client_shar.Tunnel.Relay.Routing
use pocket_relay_client_shar.Tunnel.Relay.Channel as RelayChannel
use pocket_relay_client_shar.Tunnel.Relay.Life.{Life, polled, Outlives}
use pocket_relay_client_shar.Tunnel.Socket
use pocket_relay_client_shar.Tunnel.Socket.{poll_socket}
use pocket_relay_client_shar.Tunnel.System.{
  SocketState, System, Turn, poll_tunnel, sent_to, from, sends, feed, from_tunnel, relay_fuel,
  tunnel_arrive,
}
use pocket_relay_client_shar.Tunnel.System.Channels.{sent_to-append, messages-sends, messages-sends}
use pocket_relay_client_shar.Tunnel.System.Places.{AllAt}
use pocket_relay_client_shar.Tunnel.System.Flow.{
  pool, Sound, Goes, heard, answers, heard-append, Flow,
}

-- The flow of a socket after a poll of the tunnel that delivers `new`.
fed-Flow :
    (turns : List Turn) (r f : List (Poll Bool)) (n : List (Poll Relay.Next)) (t u : Relay.State)
    (new : List (ℕ × TunnelMessage)) (i : ℕ) (self : Socket.Socket)
    (w : Socket.World TunnelMessage TunnelMessage)
    → u.1.delivered ≡ t.1.delivered ++ new
    → RelayChannel.channel u.1 ≡ RelayChannel.channel t.1
    → Flow turns t i (self, w)
    → Flow
        (turns ++ (poll_tunnel r f n ∷ []))
        u
        i
        (self, record w { rx = w.rx ++ sends (sent_to i new) })
fed-Flow turns r f n t u new i self w delivers kept v = record {
  index_eq = v.index_eq;
  inv = record { live = v.inv.live; ledger = v.inv.ledger };
  down =
      ap (λ l. w.taken ++ l) (messages-sends w.rx (sent_to i new))
      ∙ sym (append_assoc w.taken (messages w.rx) (sent_to i new))
      ∙ ap (λ l. l ++ sent_to i new) v.down
      ∙ sym (sent_to-append i t.1.delivered new)
      ∙ ap (sent_to i) (sym delivers);
  datagrams = v.datagrams;
  given_eq = v.given_eq;
  heard_eq =
      heard-append i turns (poll_tunnel r f n ∷ []) ∙ append-nil (heard i turns) ∙ v.heard_eq;
  up = ap (from i) kept ∙ v.up;
}

feed-AllAt :
    (turns now : List Turn) (t u : Relay.State) (new : List (ℕ × TunnelMessage)) (i : ℕ)
    (cs : List SocketState)
    → ((j : ℕ) (self : Socket.Socket) (w : Socket.World TunnelMessage TunnelMessage)
        → Flow turns t j (self, w)
        → Flow now u j (self, record w { rx = w.rx ++ sends (sent_to j new) }))
    → AllAt (Flow turns t) i cs
    → AllAt (Flow now u) i (feed i new cs)
feed-AllAt turns now t u new i [] h v = tt
feed-AllAt turns now t u new i ((self, w) ∷ cs) h v =
    (h i self w v.0, feed-AllAt turns now t u new (suc i) cs h v.1)

pub tunnel-Goes :
    (turns : List Turn) (s : System) (io_ready io_flushed : List (Poll Bool))
    (io_next : List (Poll Relay.Next)) (result : Run Relay.State)
    → let t = tunnel_arrive io_ready io_flushed io_next s.tunnel in
      let now = turns ++ (poll_tunnel io_ready io_flushed io_next ∷ []) in
      Sound turns s
      → Life pool (answers now) t
      → Relay.poll (relay_fuel t) t ≡ result
      → Outlives pool (answers now) result
      → Routing.Routes t result
      → RelayChannel.Keeps (RelayChannel.channel s.tunnel.1) result
      → Goes now (from_tunnel s s.tunnel.1.delivered result)
tunnel-Goes turns s r f n (stops u) v life e o routes kept = tt
tunnel-Goes turns s r f n panics v life e o routes kept = o
tunnel-Goes turns s r f n starves v life e o routes kept = o
tunnel-Goes turns s r f n (rests u) v life e o routes kept =
    let t = tunnel_arrive r f n s.tunnel in
    let now = turns ++ (poll_tunnel r f n ∷ []) in
    let new = Messages.route s.tunnel.0.pool routes.consumed in
    let news : drop (length s.tunnel.1.delivered) u.1.delivered ≡ new =
      ap (drop (length s.tunnel.1.delivered)) routes.delivered_eq
      ∙ drop-length_append s.tunnel.1.delivered new in
    subst (λ l. Sound now (record { tunnel = u; sockets = feed 0 l s.sockets })) (sym news)
      (record {
        life = polled (relay_fuel t) (omega arith) (omega arith) life e;
        flows =
            feed-AllAt turns now s.tunnel u new 0 s.sockets
              (λ j self w. fed-Flow turns r f n s.tunnel u new j self w routes.delivered_eq kept)
              v.flows;
      })
