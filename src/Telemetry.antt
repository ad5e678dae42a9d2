-- ===== src/Telemetry.antt =====
-- src/servers/telemetry.rs: telemetry messages of the game, decoded and published as events. A text
-- is the list of its code points.
pub mod Cipher
pub mod Keystream
pub mod Values
pub mod Messages
use pocket_relay_client_shar.Prelude.Text.{text_eq}
use Prim.Native.Nat.{bit_xor}
use pocket_relay_client_shar.Prelude.{
  ℕ, zero, suc, ◌+◌, ◌-◌, ◌*◌, ◌/◌, ◌%◌, Bool, Option, none, some, true, false, ◌&&◌, List, [], ◌∷◌,
  ◌++◌, map, ltb, ◌==◌, if◌then◌else◌, length, take, drop,
}

-- `Iterator::zip` of the bytes with `key.iter().cycle()`, of which `rest` is the current round.
unfoldable pub zip_cycle : List ℕ → List ℕ → List ℕ → List (ℕ × ℕ)
zip_cycle [] key rest = []
zip_cycle (b ∷ bs) key (k ∷ rest) = (b, k) ∷ zip_cycle bs key rest
zip_cycle (b ∷ bs) [] [] = []
zip_cycle (b ∷ bs) (k ∷ key) [] = (b, k) ∷ zip_cycle bs (k ∷ key) key

unfoldable pub xor_cipher : List ℕ → List ℕ → List ℕ
unfolding zip_cycle
xor_cipher input key = map (λ p. bit_xor p.0 p.1 % 0x80) (zip_cycle input key key)

-- The bytes of "The truth is back in style."
abbrev pub tlm3_key : List ℕ
tlm3_key =
    b'T' ∷ b'h' ∷ b'e' ∷ b' ' ∷ b't' ∷ b'r' ∷ b'u' ∷ b't' ∷ b'h' ∷ b' ' ∷ b'i' ∷ b's' ∷ b' ' ∷ b'b'
    ∷ b'a' ∷ b'c' ∷ b'k' ∷ b' ' ∷ b'i' ∷ b'n' ∷ b' ' ∷ b's' ∷ b't' ∷ b'y' ∷ b'l' ∷ b'e' ∷ b'.' ∷ []

-- `slice.splitn(2, |value| separator.eq(value))`, if it has a second part.
unfoldable pub splitn_2 : ℕ → List ℕ → Option (List ℕ × List ℕ)
splitn_2 separator [] = none
splitn_2 separator (b ∷ bs) =
    let parts = splitn_2 separator bs in
    if b == separator
    then some ([], bs)
    else elim parts [ none ↦ none | some (first, second) ↦ some (b ∷ first, second) ]

abbrev pub push_front : ℕ → List (List ℕ) → List (List ℕ)
push_front b [] = (b ∷ []) ∷ []
push_front b (part ∷ parts) = (b ∷ part) ∷ parts

-- `slice.split(|value| separator.eq(value))`
unfoldable pub split : ℕ → List ℕ → List (List ℕ)
split separator [] = [] ∷ []
split separator (b ∷ bs) =
    let parts = split separator bs in if b == separator then [] ∷ parts else push_front b parts

-- A byte in decimal.
unfoldable pub decimal : ℕ → List ℕ
decimal n =
    if ltb n 10
    then (b'0' + n) ∷ []
    else if ltb n 100
    then (b'0' + n / 10) ∷ (b'0' + n % 10) ∷ []
    else (b'0' + n / 100) ∷ (b'0' + n / 10 % 10) ∷ (b'0' + n % 10) ∷ []

abbrev pub debug_items : List ℕ → List ℕ
debug_items [] = b']' ∷ []
debug_items (n ∷ ns) = b',' ∷ b' ' ∷ (decimal n ++ debug_items ns)

-- `format!("{:?}", bytes)`
unfoldable pub debug : List ℕ → List ℕ
unfolding decimal
debug [] = b'[' ∷ b']' ∷ []
debug (n ∷ ns) = b'[' ∷ (decimal n ++ debug_items ns)

unfoldable pub tlm3 : List ℕ → List ℕ
unfolding splitn_2 xor_cipher debug
tlm3 input = elim (splitn_2 b'-' input) [
  | none ↦ debug input
  | some (_, line) ↦ xor_cipher line tlm3_key
]

abbrev pub tlm3_name : List ℕ
tlm3_name = b'T' ∷ b'L' ∷ b'M' ∷ b'3' ∷ []

pub record TelemetryEvent : Type 0 where
  pub values : List (List ℕ × List ℕ)

-- A result of `std::io`, and a panic.
pub data IoResult (A : Type 0) : Type 0 where
  ok : A → IoResult A
  err : IoResult A
  panic : IoResult A

infixl 5 ◌>>=◌
abbrev pub ◌>>=◌ : {A B : Type 0} → IoResult A → (A → IoResult B) → IoResult B
ok a >>= f = f a
err >>= f = err
panic >>= f = panic

-- `read_exact` on the bytes that the peer sends until it closes the connection.
abbrev pub read_exact : ℕ → List ℕ → IoResult (List ℕ × List ℕ)
read_exact n stream = if ltb (length stream) n then err else ok (take n stream, drop n stream)

-- `length - 12` on `u16`: with overflow checks (a debug build) a panic, else it wraps.
unfoldable pub body_length : Bool → ℕ → IoResult ℕ
body_length checks length =
    if ltb length 12 then if checks then panic else ok (length + 65536 - 12) else ok (length - 12)

abbrev pub be_u16 : List ℕ → ℕ
be_u16 [] = 0
be_u16 (hi ∷ []) = 0
be_u16 (hi ∷ lo ∷ bs) = hi * 256 + lo

-- `String::from_utf8_lossy` of the standard library is the parameter `from_utf8_lossy`.
module _ (from_utf8_lossy : List ℕ → List ℕ) where
  unfoldable pub decode_pair : List ℕ × List ℕ → List ℕ × List ℕ
  unfolding text_eq tlm3 debug
  decode_pair (key, value) =
      let key = from_utf8_lossy key in
      (key, (if text_eq key tlm3_name then tlm3 value else debug value))

  unfoldable pub decode_lines : List (List ℕ) → List (List ℕ × List ℕ)
  unfolding splitn_2 decode_pair
  decode_lines [] = []
  decode_lines (line ∷ lines) =
      let rest = decode_lines lines in
      elim (splitn_2 b'=' line) [ none ↦ rest | some pair ↦ decode_pair pair ∷ rest ]

  unfoldable pub decode_values : List ℕ → List (List ℕ × List ℕ)
  unfolding split decode_lines
  decode_values buffer = decode_lines (split b'\n' buffer)

  -- The event, and the bytes of the stream that are left.
  unfoldable pub read_telemetry_event : Bool → List ℕ → IoResult (TelemetryEvent × List ℕ)
  unfolding body_length decode_values
  read_telemetry_event checks stream = do
    (header, stream) ← read_exact 12 stream
    length ← body_length checks (be_u16 (drop 10 header))
    (buffer, stream) ← read_exact length stream
    ok (record { values = decode_values buffer }, stream)

  -- `handle`: the events that are published, in order, and whether the task ends by a panic. A
  -- publication that fails is only logged. `none`: the fuel ran out.
  unfoldable pub handle : ℕ → Bool → List ℕ → Option (List TelemetryEvent × Bool)
  unfolding read_telemetry_event
  handle zero checks stream = none
  handle (suc fuel) checks stream = elim (read_telemetry_event checks stream) [
    | ok (event, rest) ↦ elim (handle fuel checks rest) [
      | none ↦ none
      | some (events, panicked) ↦ some (event ∷ events, panicked)
    ]
    | err ↦ some ([], false)
    | panic ↦ some ([], true)
  ]
