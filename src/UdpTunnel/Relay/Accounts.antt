-- ===== src/UdpTunnel/Relay/Accounts.antt =====
-- That the parts of a poll of the UDP tunnel keep the account of its messages.

use pocket_relay_client_shar.Prelude.{
  ℕ, ◌≡◌, refl, sym, ◌∙◌, subst, Bool, true, false, none, some, List, [], ◌∷◌, ◌++◌, if◌then◌else◌,
  Outcome, ok, panic,
}
use pocket_relay_client_shar.Polling.{Poll, pending, ready}
use pocket_relay_client_shar.UdpTunnel.Message.{TunnelMessage, keep_alive, Protocol}
use pocket_relay_client_shar.UdpTunnel.Relay.{
  TunnelWriteState, recv, write, World, Tunnel, State, poll_write_state, first_or,
}
use pocket_relay_client_shar.UdpTunnel.Relay.Walk.{AfterWrite, Kept}
use pocket_relay_client_shar.UdpTunnel.Relay.Safety.{Anything, write_state-Inv, Inv-Kept}
use pocket_relay_client_shar.UdpTunnel.Relay.Thins.{Thins, Thins-reply, Thins-replace}
use pocket_relay_client_shar.UdpTunnel.Relay.Writing.{Inv, in_flight}
use pocket_relay_client_shar.UdpTunnel.Relay.Ledger.{
  Ledger, Lost, Accounted, Ledger-Lost, write_step,
}

module _ (protocol : Protocol) (tunnel_id : ℕ) where
  both :
      (r : Outcome (Poll TunnelWriteState × State))
      → AfterWrite Inv Anything r
      → AfterWrite (Ledger protocol tunnel_id) (Lost protocol tunnel_id) r
      → AfterWrite (Accounted protocol tunnel_id) (Lost protocol tunnel_id) r
  both panic v l = v
  both (ok (pending, t)) v l = (v, l)
  both (ok (ready TunnelWriteState.stop, t)) v l = l
  both (ok (ready recv, t)) v l = (v, l)
  both (ok (ready (write m), t)) v l = (v, l)

  reply :
      (ws : TunnelWriteState) (ss ts : List TunnelMessage)
      → Thins (ss ++ in_flight ws) ts
      → Thins (ss ++ (keep_alive ∷ [])) ts
  reply recv ss ts c = Thins-reply ss ts c
  reply (write none) ss ts c = Thins-reply ss ts c
  reply (write (some m)) ss ts c = Thins-replace ss m c
  reply TunnelWriteState.stop ss ts c = Thins-reply ss ts c

  either :
      (b : Bool) (self : Tunnel) (v w : World)
      → Ledger protocol tunnel_id (self, v)
      → Ledger protocol tunnel_id (self, w)
      → Ledger protocol tunnel_id (self, if b then v else w)
  either true self v w l k = l
  either false self v w l k = k

  -- A change that does not touch what was taken and sent.
  carry :
      (self : Tunnel) (w v : World)
      → v.sent ≡ w.sent
      → v.taken ≡ w.taken
      → Ledger protocol tunnel_id (self, w)
      → Ledger protocol tunnel_id (self, v)
  carry self w v same_sent same_taken l = record {
    messages = l.messages;
    id_eq = l.id_eq;
    sent_eq = same_sent ∙ l.sent_eq;
    thins = subst (Thins (l.messages ++ in_flight self.write_state)) (sym same_taken) l.thins;
  }

  pub Accounted-Kept : Kept protocol (Accounted protocol tunnel_id) (Lost protocol tunnel_id)
  Accounted-Kept = record {
    timely = λ s v. v.0.timely;
    ends = λ s v. Ledger-Lost protocol tunnel_id s v.1;
    halts = λ s l. record {
      messages = l.messages;
      late = l.late;
      id_eq = l.id_eq;
      sent_eq = l.sent_eq;
      thins = l.thins;
      late_bound = l.late_bound;
    };
    writes = λ s v.
        both (poll_write_state protocol s) (write_state-Inv protocol s v.0)
          (write_step protocol tunnel_id s.0.write_state s.0 s.1 v.0 v.1);
    checks = λ self w v. (
      (Inv-Kept protocol).checks self w v.0,
      either (first_or false w.ticks) self _ _ (carry self w _ refl refl v.1)
          (carry self w _ refl refl v.1),
    );
    reads = λ self w readies script v.
        ((Inv-Kept protocol).reads self w readies script v.0, carry self w _ refl refl v.1);
    delivers = λ self w handle m v.
        ((Inv-Kept protocol).delivers self w handle m v.0, carry self w _ refl refl v.1);
    replies = λ self w v. (
      (Inv-Kept protocol).replies self w v.0,
      record {
        messages = v.1.messages;
        id_eq = v.1.id_eq;
        sent_eq = v.1.sent_eq;
        thins = reply self.write_state v.1.messages w.taken v.1.thins;
      },
    );
  }
