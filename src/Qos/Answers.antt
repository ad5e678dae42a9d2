-- ===== src/Qos/Answers.antt =====
-- What a client reads in an answer of the quality of service server.
use pocket_relay_client_shar.Prelude.{
  ℕ, ◌+◌, ◌*◌, ◌/◌, ◌%◌, ◌≡◌, Option, none, some, List, [], ◌∷◌, ◌++◌, append_assoc, length,
  length-append, take, drop, take-length_append, drop-length_append, arith,
}
use pocket_relay_client_shar.Prelude.Bytes.{IsU16}
use pocket_relay_client_shar.Qos.{
  Ipv4, octets, unspecified, SocketAddr, v4, v6, port, be_bytes, handle,
}

-- The trailer of an answer: an address, a port and the padding.
pub record Trailer : Type 0 where
  pub ip : Ipv4
  pub port : ℕ
  pub padding : List ℕ

abbrev pub read_trailer : List ℕ → Option Trailer
read_trailer (a ∷ b ∷ c ∷ d ∷ hi ∷ lo ∷ padding) =
    some (record {
      ip = record { a = a; b = b; c = c; d = d };
      port = hi * 256 + lo;
      padding = padding;
    })
read_trailer _ = none

abbrev pub expected_ip : Option Ipv4 → SocketAddr → Ipv4
expected_ip (some address) peer = address
expected_ip none (v4 ip p) = ip
expected_ip none (v6 ip p) = unspecified

handle_lem :
    (public : Option Ipv4) (peer : SocketAddr) (buffer : List ℕ)
    → handle public peer buffer
      ≡ buffer
        ++ (octets (expected_ip public peer) ++ (be_bytes (port peer) ++ (0 ∷ 0 ∷ 0 ∷ 0 ∷ [])))
unfolding handle
handle_lem (some address) peer buffer = simp append_assoc
handle_lem none (v4 ip p) buffer = simp append_assoc
handle_lem none (v6 ip p) buffer = simp append_assoc

word : (n : ℕ) → IsU16 n → n / 256 % 256 * 256 + n % 256 ≡ n
word n h = omega arith

-- An answer repeats the request; the ten bytes behind it give the public address, else the address
-- of an IPv4 peer, else 0.0.0.0, then the peer's port and four zeros.
pub handle-read :
    (public : Option Ipv4) (peer : SocketAddr) (buffer : List ℕ)
    → IsU16 (port peer)
    → (take (length buffer) (handle public peer buffer) ≡ buffer)
      × (length (handle public peer buffer) ≡ length buffer + 10)
      × (read_trailer (drop (length buffer) (handle public peer buffer))
          ≡ some (record {
            ip = expected_ip public peer;
            port = port peer;
            padding = 0 ∷ 0 ∷ 0 ∷ 0 ∷ [];
          }))
handle-read public peer buffer h = (
  rw (handle_lem public peer buffer) (take-length_append buffer _),
  rw (handle_lem public peer buffer) (length-append buffer _),
  rw (handle_lem public peer buffer, drop-length_append buffer, word (port peer) h),
)
