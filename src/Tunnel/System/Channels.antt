-- ===== src/Tunnel/System/Channels.antt =====
-- The messages of a channel, by sender and by receiver.
use pocket_relay_client_shar.Prelude.{
  ℕ, ◌≡◌, ◌≢◌, refl, ap, Option, none, some, List, [], ◌∷◌, ◌++◌, map, arith,
}
use pocket_relay_client_shar.Polling.{messages, Poll, pending, ready}
use pocket_relay_client_shar.Tunnel.Codec.{TunnelMessage}
use pocket_relay_client_shar.Tunnel.System.{sent_to, from, sends}

pub sent_to-append :
    {A : Type 0} (i : ℕ) (xs ys : List (ℕ × A))
    → sent_to i (xs ++ ys) ≡ sent_to i xs ++ sent_to i ys
sent_to-append i [] ys = refl
sent_to-append i (x ∷ xs) ys = ground (arith, sent_to-append i xs ys)

pub from-append : (i : ℕ) (xs ys : List TunnelMessage) → from i (xs ++ ys) ≡ from i xs ++ from i ys
from-append i [] ys = refl
from-append i (x ∷ xs) ys = ground (arith, from-append i xs ys)

pub messages-sends :
    {A : Type 0} (rx : List (Poll (Option A))) (ms : List A)
    → messages (rx ++ sends ms) ≡ messages rx ++ ms
messages-sends [] [] = refl
messages-sends [] (m ∷ ms) = ap (◌∷◌ m) (messages-sends [] ms)
messages-sends (pending ∷ rx) ms = messages-sends rx ms
messages-sends (ready none ∷ rx) ms = messages-sends rx ms
messages-sends (ready (some m) ∷ rx) ms = ap (◌∷◌ m) (messages-sends rx ms)

-- Datagrams of a socket, under its index.
abbrev pub wrapped : ℕ → List (List ℕ) → List TunnelMessage
wrapped i ds = map (λ bytes. record { index = i; message = bytes }) ds

pub from-wrapped : (i : ℕ) (ds : List (List ℕ)) → from i (wrapped i ds) ≡ wrapped i ds
from-wrapped i [] = refl
from-wrapped i (d ∷ ds) = ground (arith, from-wrapped i ds)

pub from_other-wrapped : (i j : ℕ) (ds : List (List ℕ)) → i ≢ j → from j (wrapped i ds) ≡ []
from_other-wrapped i j [] h = refl
from_other-wrapped i j (d ∷ ds) h = ground (arith, from_other-wrapped i j ds h, h)
