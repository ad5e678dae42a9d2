-- ===== src/Tunnel/Codec/RoundTrip.antt =====
-- `TunnelCodec::encode` against `TunnelCodec::decode`.
use pocket_relay_client_shar.Prelude.{
  ℕ, ◌+◌, ◌*◌, ◌/◌, ◌%◌, ◌≤◌, ◌<◌, ◌≡◌, refl, sym, ◌∙◌, subst, none, some, List, [], ◌∷◌, ◌++◌,
  append_assoc, append-nil, arith, le→ltb, lt→ltb, length, length-append, take-length_append,
  drop-length_append, ok, All,
}
use pocket_relay_client_shar.Prelude.Bytes.{IsU16, IsByte}
use pocket_relay_client_shar.Framing.{Drains, Receives, Receives-concat_inv, concat, idle, frame}
use pocket_relay_client_shar.Tunnel.Codec.{
  TunnelMessageHeader, TunnelMessage, default, read_header, decode, encode,
}
use pocket_relay_client_shar.Tunnel.Codec.Streaming.{decode_payload_lem, decode-Resumes, measure}

-- An index of a byte, and a payload whose length fits the 16 bits of the header.
pub record IsEncodable (m : TunnelMessage) : Type 0 where
  pub index_fits : IsByte m.index
  pub length_fits : IsU16 (length m.message)

word : (n : ℕ) → IsU16 n → n % 65536 / 256 % 256 * 256 + n % 65536 % 256 ≡ n
word n h = omega arith

byte : (n : ℕ) → IsByte n → n % 256 ≡ n
byte n h = omega arith

encode-append : (m : TunnelMessage) (dst : List ℕ) → encode m dst ≡ dst ++ encode m []
unfolding encode
encode-append m dst = simp append_assoc

pub length-encode : (m : TunnelMessage) → length (encode m []) ≡ length m.message + 3
unfolding encode
length-encode m = omega arith

abbrev header_of : TunnelMessage → TunnelMessageHeader
header_of m = record { index = m.index; length = length m.message }

read_header-encode :
    (m : TunnelMessage) (rest : List ℕ)
    → IsEncodable m
    → read_header (encode m [] ++ rest) ≡ ok (header_of m, m.message ++ rest)
unfolding read_header encode
read_header-encode m rest v = rw (word (length m.message) v.length_fits, byte m.index v.index_fits)

-- The encoding of a message decodes to the message, with the bytes behind it left, provided that at
-- least two bytes follow its header, of its own payload or of what comes next.
pub tunnel_decode-encode :
    (m : TunnelMessage) (rest : List ℕ)
    → IsEncodable m
    → 2 ≤ length m.message + length rest
    → decode default (encode m [] ++ rest) ≡ ok (some m, default, rest)
unfolding decode
tunnel_decode-encode m rest v h = rw (
  le→ltb (length (encode m [] ++ rest)) 5
      (omega (arith, length-encode m, length-append (encode m []) rest)),
  read_header-encode m rest v,
  decode_payload_lem (header_of m) (m.message ++ rest)
      (omega (arith, length-append m.message rest)),
  take-length_append m.message rest,
  drop-length_append m.message rest,
)

-- A message of fewer than two bytes, such as the empty keep-alive, is not decoded when its frame has
-- arrived in full: the decoder waits for five bytes, and keeps the frame in the buffer.
pub decode-encode_short :
    (m : TunnelMessage)
    → length m.message < 2
    → decode default (encode m []) ≡ ok (none, default, encode m [])
unfolding decode
decode-encode_short m h = rw (lt→ltb (length (encode m [])) 5 (omega (arith, length-encode m)))

-- `FramedWrite` encodes messages one behind the other into its buffer.
abbrev pub encode_all : List TunnelMessage → List ℕ → List ℕ
encode_all [] dst = dst
encode_all (m ∷ ms) dst = encode_all ms (encode m dst)

encode_all-append :
    (ms : List TunnelMessage) (dst : List ℕ) → encode_all ms dst ≡ dst ++ encode_all ms []
encode_all-append [] dst = sym (append-nil dst)
encode_all-append (m ∷ ms) dst =
    rw
      (encode_all-append ms (encode m dst), encode_all-append ms (encode m []), encode-append m dst)
      (append_assoc dst (encode m []) (encode_all ms []))

-- Encodable, with a payload of two bytes at least.
abbrev pub IsLong : TunnelMessage → Type 0
IsLong m = IsEncodable m × (2 ≤ length m.message)

Drains-encode_all :
    (ms : List TunnelMessage) (tail : List ℕ)
    → All IsLong ms
    → decode default tail ≡ ok (none, default, tail)
    → Drains decode default tail default (encode_all ms [] ++ tail) ms
Drains-encode_all [] tail v stop = idle stop
Drains-encode_all (m ∷ ms) tail v stop =
    rw (encode_all-append ms (encode m []), append_assoc (encode m []) (encode_all ms []) tail)
      (frame default (encode_all ms [] ++ tail)
        (tunnel_decode-encode m (encode_all ms [] ++ tail) v.0.0 (omega arith))
        (Drains-encode_all ms tail v.1 stop))

receive :
    (ms : List TunnelMessage) (tail : List ℕ) (chunks : List (List ℕ))
    → All IsLong ms
    → decode default tail ≡ ok (none, default, tail)
    → concat chunks ≡ encode_all ms [] ++ tail
    → Receives decode default tail default [] chunks ms
receive ms tail chunks v stop e = Receives-concat_inv decode measure decode-Resumes chunks (
    subst (λ b. Drains decode default tail default b ms) (sym e) (Drains-encode_all ms tail v stop))

-- In whatever chunks the encodings of messages of two bytes or more arrive, the loop of `decode` calls
-- comes to rest with these messages in their order, and keeps neither bytes nor a pending header.
pub tunnel_receive-encode_all :
    (ms : List TunnelMessage) (chunks : List (List ℕ))
    → All IsLong ms
    → concat chunks ≡ encode_all ms []
    → Receives decode default [] default [] chunks ms
unfolding decode
tunnel_receive-encode_all ms chunks v e =
    receive ms [] chunks v refl (e ∙ sym (append-nil (encode_all ms [])))
