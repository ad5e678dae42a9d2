-- ===== src/UdpTunnel/System/Sublists.antt =====
-- The messages with an index of those that a UDP tunnel sends, as some of those of its channel.

use pocket_relay_client_shar.Prelude.{Bool-cases, ℕ, inl, inr, List, [], ◌∷◌, ◌++◌, ◌==◌}
use pocket_relay_client_shar.UdpTunnel.Message.{
  TunnelMessage, initiate, initiated, forward, keep_alive,
}
use pocket_relay_client_shar.UdpTunnel.Relay.Thins.{Thins, done, same, added, replaced}
use pocket_relay_client_shar.UdpTunnel.System.{from}

-- Some of the elements, in their order.
pub data IsSublist {A : Type 0} : List A → List A → Type 0 where
  nothing : (ys : List A) → IsSublist [] ys
  kept : {xs ys : List A} (x : A) → IsSublist xs ys → IsSublist (x ∷ xs) (x ∷ ys)
  skipped : {xs ys : List A} (y : A) → IsSublist xs ys → IsSublist xs (y ∷ ys)

pub IsSublist-append :
    {A : Type 0} {xs ys : List A} (zs : List A) → IsSublist xs ys → IsSublist xs (ys ++ zs)
IsSublist-append zs (nothing ys) = nothing (ys ++ zs)
IsSublist-append zs (kept x l) = kept x (IsSublist-append zs l)
IsSublist-append zs (skipped y l) = skipped y (IsSublist-append zs l)

pub IsSublist-front : {A : Type 0} (xs zs ys : List A) → IsSublist (xs ++ zs) ys → IsSublist xs ys
IsSublist-front [] zs ys l = nothing ys
IsSublist-front (x ∷ xs) zs [] l = elim l [ ]
IsSublist-front (x ∷ xs) zs (y ∷ ys) (kept z l) = kept z (IsSublist-front xs zs ys l)
IsSublist-front (x ∷ xs) zs (y ∷ ys) (skipped z l) = skipped z (IsSublist-front (x ∷ xs) zs ys l)

from-same :
    (i : ℕ) (m : TunnelMessage) (xs ys : List TunnelMessage)
    → IsSublist (from i xs) (from i ys)
    → IsSublist (from i (m ∷ xs)) (from i (m ∷ ys))
from-same i (initiate token) xs ys l = l
from-same i (initiated tunnel_id) xs ys l = l
from-same i keep_alive xs ys l = l
from-same i (forward index message) xs ys l = elim (Bool-cases (index == i)) [
  | inl e ↦ rw e (kept (forward index message) l)
  | inr e ↦ rw e l
]

from-skip :
    (i : ℕ) (m : TunnelMessage) (xs ys : List TunnelMessage)
    → IsSublist (from i xs) (from i ys)
    → IsSublist (from i xs) (from i (m ∷ ys))
from-skip i (initiate token) xs ys l = l
from-skip i (initiated tunnel_id) xs ys l = l
from-skip i keep_alive xs ys l = l
from-skip i (forward index message) xs ys l = elim (Bool-cases (index == i)) [
  | inl e ↦ rw e (skipped (forward index message) l)
  | inr e ↦ rw e l
]

-- Of the messages with an index, those that were sent are some of those that came from the channel.
pub from-Thins :
    (i : ℕ) {ss ts : List TunnelMessage} → Thins ss ts → IsSublist (from i ss) (from i ts)
from-Thins i done = nothing []
from-Thins i (same {ss} {ts} m c) = from-same i m ss ts (from-Thins i c)
from-Thins i (added c) = from-Thins i c
from-Thins i (replaced {ss} {ts} m c) = from-skip i m ss ts (from-Thins i c)
