-- ===== src/Tests/Telemetry.antt =====
-- src/servers/telemetry.rs on a concrete message.
use pocket_relay_client_shar.Prelude.{
  ℕ, ◌≡◌, ◌<◌, refl, true, false, some, List, [], ◌∷◌, ◌++◌, length, arith, All,
}
use pocket_relay_client_shar.Telemetry.{
  tlm3, tlm3_key, xor_cipher, debug, decode_values, handle, read_telemetry_event, panic, err,
}
use pocket_relay_client_shar.Telemetry.Cipher.{tlm3_lem, xor_cipher_bounds}
use pocket_relay_client_shar.Telemetry.Values.{
  Line, pair, noise, join, IsLine, collect, decode_values-join,
}
use pocket_relay_client_shar.Telemetry.Messages.{
  Message, IsMessage, messages, events_of, handle-messages, read_telemetry_event_underflow,
}

-- Every byte is ASCII.
abbrev lossy : List ℕ → List ℕ
lossy bytes = bytes

abbrev hi : List ℕ
hi = b'h' ∷ b'i' ∷ []

cipher_run : xor_cipher hi tlm3_key ≡ 60 ∷ 1 ∷ []
unfolding xor_cipher
cipher_run = refl

tlm3_lem_example :
    (tlm3 ((b'x' ∷ []) ++ b'-' ∷ xor_cipher hi tlm3_key) ≡ hi)
    × (tlm3 (1 ∷ 200 ∷ []) ≡ debug (1 ∷ 200 ∷ []))
tlm3_lem_example = tlm3_lem (b'x' ∷ []) hi (1 ∷ 200 ∷ []) (omega arith) (omega arith) (omega arith)

xor_cipher_bounds_example :
    (length (xor_cipher (200 ∷ []) (b'k' ∷ [])) ≡ 1)
    × All (λ c. c < 128) (xor_cipher (200 ∷ []) (b'k' ∷ []))
xor_cipher_bounds_example = xor_cipher_bounds (200 ∷ []) b'k' []

abbrev a_is_1 : Line
a_is_1 = pair (b'a' ∷ []) (b'1' ∷ [])

abbrev nothing : Line
nothing = noise (b'-' ∷ [])

lines-IsLine : All IsLine (a_is_1 ∷ nothing ∷ [])
lines-IsLine = ((omega arith, omega arith), ((omega arith, omega arith), tt))

decode_values-join_example :
    decode_values lossy (join a_is_1 (nothing ∷ [])) ≡ collect lossy (a_is_1 ∷ nothing ∷ [])
decode_values-join_example = decode_values-join lossy a_is_1 (nothing ∷ []) lines-IsLine

values_run :
    decode_values lossy (join a_is_1 (nothing ∷ []))
    ≡ (b'a' ∷ [], b'[' ∷ b'4' ∷ b'9' ∷ b']' ∷ []) ∷ []
unfolding decode_values
values_run = refl

abbrev message : Message
message = record {
  lead = 0 ∷ 0 ∷ 0 ∷ 0 ∷ 0 ∷ 0 ∷ 0 ∷ 0 ∷ 0 ∷ 0 ∷ [];
  body = join a_is_1 (nothing ∷ []);
}

message-IsMessage : IsMessage message
message-IsMessage = record { lead_length = refl; body_fits = omega arith }

handle-messages_example :
    handle lossy 3 true (messages (message ∷ []) (1 ∷ 2 ∷ []))
    ≡ some (events_of lossy true (message ∷ []), false)
handle-messages_example =
    handle-messages lossy true (message ∷ []) (1 ∷ 2 ∷ []) 3 (message-IsMessage, tt) (omega arith)
      (omega arith)

abbrev short_header : List ℕ
short_header = 0 ∷ 0 ∷ 0 ∷ 0 ∷ 0 ∷ 0 ∷ 0 ∷ 0 ∷ 0 ∷ 0 ∷ 0 ∷ 5 ∷ []

read_telemetry_event_underflow_example :
    (read_telemetry_event lossy true (short_header ++ (9 ∷ [])) ≡ panic)
    × (read_telemetry_event lossy false (short_header ++ (9 ∷ [])) ≡ err)
read_telemetry_event_underflow_example =
    read_telemetry_event_underflow lossy short_header (9 ∷ []) refl (omega arith) (omega arith)
