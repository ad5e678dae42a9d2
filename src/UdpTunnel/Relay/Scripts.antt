-- ===== src/UdpTunnel/Relay/Scripts.antt =====
-- The states of `Tunnel` of src/servers/udp_tunnel.rs, and what it does with its environment: each
-- operation on the channel, the socket, the interval and the clock takes an answer off a script.
use pocket_relay_client_shar.Prelude.{ℕ, ◌+◌, Bool, true, false, Option, some, List, [], ◌∷◌, ◌++◌}
use pocket_relay_client_shar.Polling.{Poll, ready, answer, later}
use pocket_relay_client_shar.UdpTunnel.Message.{TunnelMessage}

abbrev pub keep_alive_timeout : ℕ
keep_alive_timeout = 40000

pub data TunnelWriteState : Type 0 where
  recv : TunnelWriteState
  write : Option TunnelMessage → TunnelWriteState
  stop : TunnelWriteState

pub data TunnelReadState : Type 0 where
  continue : TunnelReadState
  stop : TunnelReadState

-- `rx`, `send_ready`, `send`, `recv_ready` and `recv` answer the polls of the channel and of the
-- socket: `true` is `Ok`, and `none` in `recv` is an error. `ticks` says whether the interval is
-- ready, and `elapse` how much time has passed since `now` when the clock is read. `taken`, `sent`
-- and `delivered` are what came from `rx`, the datagrams, and the payloads sent to a handle.
pub record World : Type 0 where
  pub rx : List (Poll (Option TunnelMessage))
  pub send_ready : List (Poll Bool)
  pub send : List (Poll Bool)
  pub ticks : List Bool
  pub elapse : List ℕ
  pub now : ℕ
  pub recv_ready : List (Poll Bool)
  pub recv : List (Poll (Option (List ℕ)))
  pub taken : List TunnelMessage
  pub sent : List (List ℕ)
  pub delivered : List (ℕ × List ℕ)

-- A handle of the pool is a number.
pub record Tunnel : Type 0 where
  pub tunnel_id : ℕ
  pub pool : List ℕ
  pub write_state : TunnelWriteState
  pub last_keep_alive : ℕ

abbrev pub State : Type 0
State = Tunnel × World

abbrev pub rx_poll_recv : World → Poll (Option TunnelMessage) × World
rx_poll_recv w = elim (answer w.rx) [
  | ready (some m) ↦ (ready (some m), record w { rx = later w.rx; taken = w.taken ++ (m ∷ []) })
  | p ↦ (p, record w { rx = later w.rx })
]

abbrev pub poll_send_ready : World → Poll Bool × World
poll_send_ready w = (answer w.send_ready, record w { send_ready = later w.send_ready })

-- A datagram is sent if the poll gives `Ok`.
abbrev pub poll_send : List ℕ → World → Poll Bool × World
poll_send buffer w = elim (answer w.send) [
  | ready true ↦ (ready true, record w { send = later w.send; sent = w.sent ++ (buffer ∷ []) })
  | p ↦ (p, record w { send = later w.send })
]

abbrev pub poll_recv_ready : World → Poll Bool × World
poll_recv_ready w = (answer w.recv_ready, record w { recv_ready = later w.recv_ready })

abbrev pub poll_recv : World → Poll (Option (List ℕ)) × World
poll_recv w = (answer w.recv, record w { recv = later w.recv })

abbrev pub first_or {ℓ} : {A : Type ℓ} → A → List A → A
first_or d [] = d
first_or d (x ∷ xs) = x

abbrev pub poll_tick : World → Bool × World
poll_tick w = (first_or false w.ticks, record w { ticks = later w.ticks })

abbrev pub instant_now : World → ℕ × World
instant_now w =
    let now = w.now + first_or 0 w.elapse in (now, record w { now = now; elapse = later w.elapse })

-- `_ = handle.0.send(message)`
abbrev pub handle_send : ℕ → List ℕ → World → World
handle_send handle m w = record w { delivered = w.delivered ++ ((handle, m) ∷ []) }

abbrev pub set_write_state : TunnelWriteState → State → State
set_write_state next (self, w) = (record self { write_state = next }, w)
