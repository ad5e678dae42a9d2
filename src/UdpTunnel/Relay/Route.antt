-- ===== src/UdpTunnel/Relay/Route.antt =====
-- The deliveries that the datagrams of the server are meant to cause.
use pocket_relay_client_shar.Prelude.{
  ℕ, ◌<◌, ◌≡◌, sym, ◌∙◌, Option, none, some, List, [], ◌∷◌, ◌++◌, append-nil, length, get_elem?,
  Outcome, ok, panic,
}
use pocket_relay_client_shar.Polling.{Poll, pending, ready}
use pocket_relay_client_shar.UdpTunnel.Message.{TunnelMessage, forward, Protocol}
use pocket_relay_client_shar.UdpTunnel.Relay.{TunnelReadState, continue, State}
use pocket_relay_client_shar.UdpTunnel.Relay.Progress.{Same}

-- The deliveries that a message is meant to cause: the payload of a forwarded message to the handle
-- at its index in the pool, and nothing else.
abbrev pub route_message : List ℕ → TunnelMessage → List (ℕ × List ℕ)
route_message pool (forward index message) = elim (get_elem? pool index) [
  | none ↦ []
  | some handle ↦ (handle, message) ∷ []
]
route_message pool _ = []

abbrev pub route_packet : List ℕ → Option TunnelMessage → List (ℕ × List ℕ)
route_packet pool none = []
route_packet pool (some m) = route_message pool m

module _ (protocol : Protocol) where
  open protocol use {deserialize_message}

  abbrev pub route : List ℕ → List (Poll (Option (List ℕ))) → List (ℕ × List ℕ)
  route pool [] = []
  route pool (ready (some buffer) ∷ script) =
      route_packet pool (deserialize_message buffer) ++ route pool script
  route pool (_ ∷ script) = route pool script

  -- From one state to a later one, a prefix of the datagrams that the socket gives was routed.
  pub record Routed (s t : State) : Type 0 where
    pub consumed : List (Poll (Option (List ℕ)))
    pub recv_eq : s.1.recv ≡ consumed ++ t.1.recv
    pub delivered_eq : t.1.delivered ≡ s.1.delivered ++ route s.0.pool consumed
    pub pool_eq : t.0.pool ≡ s.0.pool

  abbrev pub ReadRouted : State → Outcome (Poll TunnelReadState × State) → Type 0
  ReadRouted s panic = Unit {0}
  ReadRouted s (ok (pending, t)) = Routed s t
  ReadRouted s (ok (ready TunnelReadState.stop, t)) = Routed s t
  ReadRouted s (ok (ready continue, t)) = Routed s t × (length t.1.recv < length s.1.recv)

  pub Same-Routed : (s t : State) → Same s t → Routed s t
  Same-Routed s t v = record {
    consumed = [];
    recv_eq = sym v.recv_eq;
    delivered_eq = v.delivered_eq ∙ sym (append-nil s.1.delivered);
    pool_eq = v.pool_eq;
  }
