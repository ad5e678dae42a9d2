-- ===== src/UdpTunnel/Relay/Thins.antt =====
-- How the messages that the UDP tunnel sends come from those of its channel.
use pocket_relay_client_shar.Prelude.{subst, List, [], ◌∷◌, ◌++◌, append-nil}
use pocket_relay_client_shar.UdpTunnel.Message.{TunnelMessage, keep_alive}

-- `Thins ss ts`: what was sent, `ss`, is what came from the channel, `ts`, in order, but for keep-alives,
-- each of which was added or took the place of one message.
pub data Thins : List TunnelMessage → List TunnelMessage → Type 0 where
  done : Thins [] []
  same : {ss ts : List TunnelMessage} (m : TunnelMessage) → Thins ss ts → Thins (m ∷ ss) (m ∷ ts)
  added : {ss ts : List TunnelMessage} → Thins ss ts → Thins (keep_alive ∷ ss) ts
  replaced :
      {ss ts : List TunnelMessage} (m : TunnelMessage)
      → Thins ss ts
      → Thins (keep_alive ∷ ss) (m ∷ ts)

Thins-append :
    {ss ts us vs : List TunnelMessage} → Thins ss ts → Thins us vs → Thins (ss ++ us) (ts ++ vs)
Thins-append done d = d
Thins-append (same m c) d = same m (Thins-append c d)
Thins-append (added c) d = added (Thins-append c d)
Thins-append (replaced m c) d = replaced m (Thins-append c d)

pub Thins-take :
    (ss ts : List TunnelMessage) (m : TunnelMessage)
    → Thins ss ts
    → Thins (ss ++ (m ∷ [])) (ts ++ (m ∷ []))
Thins-take ss ts m c = Thins-append c (same m done)

pub Thins-reply :
    (ss ts : List TunnelMessage) → Thins (ss ++ []) ts → Thins (ss ++ (keep_alive ∷ [])) ts
Thins-reply ss ts c =
    subst (Thins (ss ++ (keep_alive ∷ []))) (append-nil ts)
      (Thins-append (subst (λ l. Thins l ts) (append-nil ss) c) (added done))

-- The reply takes the place of the message that is being written.
pub Thins-replace :
    (ss : List TunnelMessage) (m : TunnelMessage) {ts : List TunnelMessage}
    → Thins (ss ++ (m ∷ [])) ts
    → Thins (ss ++ (keep_alive ∷ [])) ts
Thins-replace [] m (same n c) = replaced n c
Thins-replace [] m (added c) = added c
Thins-replace [] m (replaced n c) = replaced n c
Thins-replace (x ∷ ss) m (same n c) = same n (Thins-replace ss m c)
Thins-replace (x ∷ ss) m (added c) = added (Thins-replace ss m c)
Thins-replace (x ∷ ss) m (replaced n c) = replaced n (Thins-replace ss m c)
