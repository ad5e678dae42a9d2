-- ===== src/UdpTunnel/Relay/Safety.antt =====
-- `poll` of the UDP tunnel on a socket that takes a datagram whenever it said that it is ready.
use pocket_relay_client_shar.Prelude.{ℕ, Outcome, ok, panic, arith}
use pocket_relay_client_shar.Polling.{Poll, pending, ready}
use pocket_relay_client_shar.UdpTunnel.Message.{Protocol}
use pocket_relay_client_shar.UdpTunnel.Relay.{
  TunnelWriteState, recv, write, State, poll_write_state, poll,
}
use pocket_relay_client_shar.UdpTunnel.Relay.Walk.{AfterWrite, Ends, Kept, poll-Ends}
use pocket_relay_client_shar.UdpTunnel.Relay.Writing
use pocket_relay_client_shar.UdpTunnel.Relay.Writing.{Inv, write_step, Sends-refl}

-- What is asked of a tunnel that stops.
abbrev pub Anything : State → Type 0
Anything s = Unit {0}

module _ (protocol : Protocol) where
  AfterWrite-Inv :
      (s : State) (r : Outcome (Poll TunnelWriteState × State))
      → Writing.AfterWrite protocol s r
      → AfterWrite Inv Anything r
  AfterWrite-Inv s panic v = v
  AfterWrite-Inv s (ok (pending, t)) v = v.0
  AfterWrite-Inv s (ok (ready TunnelWriteState.stop, t)) v = tt
  AfterWrite-Inv s (ok (ready recv, t)) v = v.0
  AfterWrite-Inv s (ok (ready (write m), t)) v = v.0

  pub write_state-Inv : (s : State) → Inv s → AfterWrite Inv Anything (poll_write_state protocol s)
  write_state-Inv s v =
      AfterWrite-Inv s (poll_write_state protocol s)
        (write_step protocol s s.0.write_state s.0 s.1 (v, Sends-refl protocol s))

  pub Inv-Kept : Kept protocol Inv Anything
  Inv-Kept = record {
    timely = λ s v. v.timely;
    ends = λ s v. tt;
    halts = λ s v. tt;
    writes = write_state-Inv;
    checks = λ self w v. ground arith;
    reads = λ self w readies script v. record {
      live = v.live;
      timely = v.timely;
      sends_ok = v.sends_ok;
      sends_enough = v.sends_enough;
    };
    delivers = λ self w handle m v. record {
      live = v.live;
      timely = v.timely;
      sends_ok = v.sends_ok;
      sends_enough = v.sends_enough;
    };
    replies = λ self w v. record {
      live = tt;
      timely = omega arith;
      sends_ok = v.sends_ok;
      sends_enough = v.sends_enough;
    };
  }

  -- On a socket that takes a datagram whenever it said that it is ready, `poll` of a live tunnel whose
  -- clock has not gone back does not panic, whatever arrives, and a tunnel that it leaves pending can be
  -- polled again.
  pub udp_poll-Ends : (fuel : ℕ) (s : State) → Inv s → Ends Inv Anything (poll protocol fuel s)
  udp_poll-Ends fuel s v = poll-Ends protocol Inv Anything Inv-Kept fuel s v
