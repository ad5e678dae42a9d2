-- ===== src/Tunnel/System/Wire.antt =====
-- The tunnel with its sockets and its codec: from the bytes of the server to those that the game gets.
use pocket_relay_client_shar.Prelude.{
  ok, some, ℕ, ◌<◌, ◌≡◌, refl, sym, ap, ◌∙◌, subst, List, [], ◌++◌, append_assoc, All, get_elem?,
}
use pocket_relay_client_shar.Framing.{Receives, Receives-unique, concat}
use pocket_relay_client_shar.Tunnel.Codec.{TunnelMessage, TunnelCodec, default, decode}
use pocket_relay_client_shar.Tunnel.Codec.Streaming.{measure, decode-Resumes}
use pocket_relay_client_shar.Tunnel.Codec.RoundTrip.{IsLong, encode_all, tunnel_receive-encode_all}
use pocket_relay_client_shar.Tunnel.System.{System, SocketState, Turn, from, run, new_system}
use pocket_relay_client_shar.Tunnel.System.Channels.{from-append}
use pocket_relay_client_shar.Tunnel.System.Flow.{answers}
use pocket_relay_client_shar.Tunnel.System.Fifo.{
  IsPrefix, items, payloads, payloads-append, system_run-IsPrefix,
}

IsPrefix-trans : (xs ys zs : List ℕ) → IsPrefix xs ys → IsPrefix ys zs → IsPrefix xs zs
IsPrefix-trans xs ys zs (r, e) (q, f) = (r ++ q, sym (append_assoc xs r q) ∙ ap (λ l. l ++ q) e ∙ f)

payloads-IsPrefix :
    (i : ℕ) (xs ys : List TunnelMessage)
    → IsPrefix xs ys
    → IsPrefix (payloads (from i xs)) (payloads (from i ys))
payloads-IsPrefix i xs ys (r, e) = (
  payloads (from i r),
  sym (payloads-append (from i xs) (from i r))
      ∙ ap payloads (sym (from-append i xs r))
      ∙ ap (λ l. payloads (from i l)) e,
)

-- The server sends the encodings of messages of two bytes or more, and its bytes arrive in whatever
-- chunks. When the tunnel was given a beginning of what the loop of `decode` calls makes of the chunks,
-- then in whatever order the tunnel and its sockets had their turns, as long as no future has ended, what
-- a socket has sent to the game is a beginning of the payloads of those of the messages that have its
-- index.
pub system_run-carries :
    (turns : List Turn) (s : System) (i : ℕ) (c : SocketState) (ms : List TunnelMessage)
    (chunks : List (List ℕ)) (t : TunnelCodec) (rest : List ℕ) (decoded : List TunnelMessage)
    → run turns new_system ≡ ok (some s)
    → get_elem? s.sockets i ≡ some c
    → i < 4
    → All IsLong ms
    → concat chunks ≡ encode_all ms []
    → Receives decode t rest default [] chunks decoded
    → IsPrefix (items (answers turns)) decoded
    → IsPrefix (concat c.1.sent) (payloads (from i ms))
system_run-carries turns s i c ms chunks t rest decoded e present h long sent received given =
    let (same, _, _) =
      Receives-unique decode measure decode-Resumes received
        (tunnel_receive-encode_all ms chunks long sent) refl in
    let (down, _) = system_run-IsPrefix turns s i c e present h in
    IsPrefix-trans (concat c.1.sent) (payloads (from i (items (answers turns))))
      (payloads (from i ms)) down
      (payloads-IsPrefix i (items (answers turns)) ms
        (subst (IsPrefix (items (answers turns))) same given))
