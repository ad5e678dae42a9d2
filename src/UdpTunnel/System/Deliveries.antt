-- ===== src/UdpTunnel/System/Deliveries.antt =====
-- A turn of the UDP tunnel keeps what holds between it and its sockets.
use pocket_relay_client_shar.Prelude.{
  ℕ, suc, ◌≡◌, sym, ap, ◌∙◌, subst, List, [], ◌∷◌, ◌++◌, append-nil, append_assoc, length, drop,
  drop-length_append, arith,
}
use pocket_relay_client_shar.Polling.{messages, Run, rests, stops, panics, starves}
use pocket_relay_client_shar.Tunnel.Socket
use pocket_relay_client_shar.UdpTunnel.Socket.{UdpState}
use pocket_relay_client_shar.Tunnel.System.{sent_to, sends, feed}
use pocket_relay_client_shar.Tunnel.System.Channels.{sent_to-append, messages-sends}
use pocket_relay_client_shar.Tunnel.System.Places.{AllAt}
use pocket_relay_client_shar.UdpTunnel.Message.{TunnelMessage, Protocol}
use pocket_relay_client_shar.UdpTunnel.Relay
use pocket_relay_client_shar.UdpTunnel.Relay.Route
use pocket_relay_client_shar.UdpTunnel.Relay.Routing
use pocket_relay_client_shar.UdpTunnel.Relay.Walk
use pocket_relay_client_shar.UdpTunnel.Relay.Channel as RelayChannel
use pocket_relay_client_shar.UdpTunnel.Relay.Life.{Arrival, arrive, Life, polled, Outlives}
use pocket_relay_client_shar.UdpTunnel.System.{
  System, Turn, poll_tunnel, outside, from, from_tunnel, relay_fuel, pool,
}
use pocket_relay_client_shar.UdpTunnel.System.Flow.{Sound, Goes, heard, answers, heard-append, Flow}

-- The flow of a socket after a poll of the tunnel that delivers `new`.
fed-Flow :
    (turns : List Turn) (a : Arrival) (t u : Relay.State) (new : List (ℕ × List ℕ)) (i : ℕ)
    (self : Socket.Socket) (w : Socket.World (List ℕ) TunnelMessage)
    → u.1.delivered ≡ t.1.delivered ++ new
    → RelayChannel.channel u.1 ≡ RelayChannel.channel t.1
    → Flow turns t i (self, w)
    → Flow
        (turns ++ (poll_tunnel a ∷ []))
        u
        i
        (self, record w { rx = w.rx ++ sends (sent_to i new) })
fed-Flow turns a t u new i self w delivers kept v = record {
  index_eq = v.index_eq;
  inv = record { live = v.inv.live; ledger = v.inv.ledger };
  down =
      ap (λ l. w.taken ++ l) (messages-sends w.rx (sent_to i new))
      ∙ sym (append_assoc w.taken (messages w.rx) (sent_to i new))
      ∙ ap (λ l. l ++ sent_to i new) v.down
      ∙ sym (sent_to-append i t.1.delivered new)
      ∙ ap (sent_to i) (sym delivers);
  datagrams = v.datagrams;
  given_eq = v.given_eq;
  heard_eq = heard-append i turns (poll_tunnel a ∷ []) ∙ append-nil (heard i turns) ∙ v.heard_eq;
  up = ap (from i) kept ∙ v.up;
}

feed-AllAt :
    (turns now : List Turn) (t u : Relay.State) (new : List (ℕ × List ℕ)) (i : ℕ)
    (cs : List UdpState)
    → ((j : ℕ) (self : Socket.Socket) (w : Socket.World (List ℕ) TunnelMessage)
        → Flow turns t j (self, w)
        → Flow now u j (self, record w { rx = w.rx ++ sends (sent_to j new) }))
    → AllAt (Flow turns t) i cs
    → AllAt (Flow now u) i (feed i new cs)
feed-AllAt turns now t u new i [] h v = tt
feed-AllAt turns now t u new i ((self, w) ∷ cs) h v =
    (h i self w v.0, feed-AllAt turns now t u new (suc i) cs h v.1)

module _ (protocol : Protocol) (tunnel_id : ℕ) where
  pub tunnel-Goes :
      (turns : List Turn) (s : System) (a : Arrival) (result : Run Relay.State)
      → let t = arrive (outside a) s.tunnel in
        let now = turns ++ (poll_tunnel a ∷ []) in
        Sound protocol tunnel_id turns s
        → Life protocol tunnel_id pool (answers now) t
        → Relay.poll protocol (relay_fuel t) t ≡ result
        → Outlives protocol tunnel_id pool (answers now) result
        → Routing.Routes protocol t result
        → Walk.Ends
            (RelayChannel.Carries protocol tunnel_id (RelayChannel.channel s.tunnel.1))
            (RelayChannel.Stopped protocol tunnel_id (RelayChannel.channel s.tunnel.1))
            result
        → Goes protocol tunnel_id now (from_tunnel s s.tunnel.1.delivered result)
  tunnel-Goes turns s a (stops u) v life e o routes kept = tt
  tunnel-Goes turns s a panics v life e o routes kept = o
  tunnel-Goes turns s a starves v life e o routes kept = o
  tunnel-Goes turns s a (rests u) v life e o routes kept =
      let t = arrive (outside a) s.tunnel in
      let now = turns ++ (poll_tunnel a ∷ []) in
      let new = Route.route protocol s.tunnel.0.pool routes.consumed in
      let news : drop (length s.tunnel.1.delivered) u.1.delivered ≡ new =
        ap (drop (length s.tunnel.1.delivered)) routes.delivered_eq
        ∙ drop-length_append s.tunnel.1.delivered new in
      subst
        (λ l. Sound protocol tunnel_id now (record { tunnel = u; sockets = feed 0 l s.sockets }))
        (sym news)
        (record {
          life = polled (relay_fuel t) (omega arith) (omega arith) life e;
          flows =
              feed-AllAt turns now s.tunnel u new 0 s.sockets
                (λ j self w. fed-Flow turns a s.tunnel u new j self w routes.delivered_eq kept.1)
                v.flows;
        })
