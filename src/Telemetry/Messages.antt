-- ===== src/Telemetry/Messages.antt =====
-- `handle` and the framing of `read_telemetry_event`.
use pocket_relay_client_shar.Prelude.{
  All, ℕ, zero, suc, ◌+◌, ◌-◌, ◌/◌, ◌%◌, ◌≤◌, ◌<◌, ◌≡◌, refl, ap, ◌∙◌, Bool, true, false, some,
  List, [], ◌∷◌, ◌++◌, arith, ltb, le→ltb, lt→ltb, ltb→le, Bool-cases, inl, inr, ◌⊎◌, length,
  length-append, length-drop, take, drop, take-length_append, drop-length_append,
}
use pocket_relay_client_shar.Telemetry.{
  TelemetryEvent, IoResult, ok, err, panic, read_exact, be_u16, body_length, decode_values,
  read_telemetry_event, handle,
}

-- A message as the game frames it: ten bytes, the length of the whole, and the body.
pub record Message : Type 0 where
  pub lead : List ℕ
  pub body : List ℕ

pub record IsMessage (m : Message) : Type 0 where
  pub lead_length : length m.lead ≡ 10
  pub body_fits : length m.body + 12 < 65536

abbrev pub header_of : Message → List ℕ
header_of m = m.lead ++ (length m.body + 12) / 256 ∷ (length m.body + 12) % 256 ∷ []

abbrev pub messages : List Message → List ℕ → List ℕ
messages [] tail = tail
messages (m ∷ ms) tail = header_of m ++ (m.body ++ messages ms tail)

read_exact-append : (n : ℕ) (xs ys : List ℕ) → length xs ≡ n → read_exact n (xs ++ ys) ≡ ok (xs, ys)
read_exact-append n xs ys e = rw (
  ← e,
  le→ltb (length (xs ++ ys)) (length xs) (omega (arith, length-append xs ys)),
  take-length_append xs ys,
  drop-length_append xs ys,
)

read_exact-short : (n : ℕ) (xs : List ℕ) → length xs < n → read_exact n xs ≡ err
read_exact-short n xs h = rw (lt→ltb (length xs) n h)

drop-append_eq : (n : ℕ) (xs ys : List ℕ) → length xs ≡ n → drop n (xs ++ ys) ≡ ys
drop-append_eq n xs ys e = rw (← e) (drop-length_append xs ys)

be_u16-header_of : (m : Message) → IsMessage m → be_u16 (drop 10 (header_of m)) ≡ length m.body + 12
be_u16-header_of m v =
    ap be_u16 (drop-append_eq 10 m.lead _ v.lead_length) ∙ omega (arith, v.body_fits)

body_length-ge : (checks : Bool) (n : ℕ) → body_length checks (n + 12) ≡ ok n
unfolding body_length
body_length-ge checks n = ground arith

length-header_of : (m : Message) → IsMessage m → length (header_of m) ≡ 12
length-header_of m v = omega (arith, length-append m.lead _, v.lead_length)

read-short_lem :
    (from_utf8_lossy : List ℕ → List ℕ) (checks : Bool) (tail : List ℕ)
    → length tail < 12
    → read_telemetry_event from_utf8_lossy checks tail ≡ err
unfolding read_telemetry_event
read-short_lem from_utf8_lossy checks tail short = rw (read_exact-short 12 tail short)

IoResult-cases : {A : Type 0} (r : IoResult A) → ((a : A) × (r ≡ ok a)) ⊎ (r ≡ err) ⊎ (r ≡ panic)
IoResult-cases (ok a) = inl (a, refl)
IoResult-cases err = inr (inl refl)
IoResult-cases panic = inr (inr refl)

-- An event takes its header off the stream at least.
ReadsLess : IoResult (TelemetryEvent × List ℕ) → ℕ → Type 0
ReadsLess r n =
    ((e : TelemetryEvent) × (rest : List ℕ) × (r ≡ ok (e, rest)) × (length rest + 12 ≤ n))
    ⊎ (r ≡ err)
    ⊎ (r ≡ panic)

read-ReadsLess :
    (from_utf8_lossy : List ℕ → List ℕ) (checks : Bool) (stream : List ℕ)
    → ReadsLess (read_telemetry_event from_utf8_lossy checks stream) (length stream)
unfolding ReadsLess read_telemetry_event
read-ReadsLess from_utf8_lossy checks stream = elim (Bool-cases (ltb (length stream) 12)) [
  | inl short ↦ inr (inl (rw short))
  | inr full ↦ elim (IoResult-cases (body_length checks (be_u16 (drop 10 (take 12 stream))))) [
    | inl (n, e) ↦ elim (Bool-cases (ltb (length (drop 12 stream)) n)) [
      | inl short ↦ inr (inl (rw (full, e, short)))
      | inr fits ↦ inl (
        record { values = decode_values from_utf8_lossy (take n (drop 12 stream)) },
        drop n (drop 12 stream),
        rw (full, e, fits),
        omega (
          arith,
          length-drop n (drop 12 stream),
          length-drop 12 stream,
          ltb→le (length stream) 12 full,
        ),
      )
    ]
    | inr (inl e) ↦ inr (inl (rw (full, e)))
    | inr (inr e) ↦ inr (inr (rw (full, e)))
  ]
]

module _ (from_utf8_lossy : List ℕ → List ℕ) (checks : Bool) where
  abbrev event_of : Message → TelemetryEvent
  event_of m = record { values = decode_values from_utf8_lossy m.body }

  abbrev pub events_of : List Message → List TelemetryEvent
  events_of [] = []
  events_of (m ∷ ms) = event_of m ∷ events_of ms

  read-message :
      (m : Message) (rest : List ℕ)
      → IsMessage m
      → read_telemetry_event from_utf8_lossy checks (header_of m ++ (m.body ++ rest))
        ≡ ok (event_of m, rest)
  unfolding read_telemetry_event
  read-message m rest v = rw (
    read_exact-append 12 (header_of m) (m.body ++ rest) (length-header_of m v),
    be_u16-header_of m v,
    body_length-ge checks (length m.body),
    read_exact-append (length m.body) m.body rest refl,
  )

  -- The events of well-formed messages (ten bytes, the length of the whole, the body) are published in
  -- their order, each once, and the task ends without a panic when the stream ends behind them or in
  -- the middle of a header, given fuel above their number; with overflow checks and without.
  pub handle-messages :
      (ms : List Message) (tail : List ℕ) (fuel : ℕ)
      → All IsMessage ms
      → length tail < 12
      → length ms < fuel
      → handle from_utf8_lossy fuel checks (messages ms tail) ≡ some (events_of ms, false)
  unfolding handle
  handle-messages ms tail zero v short enough = absurd (omega arith)
  handle-messages [] tail (suc fuel) v short enough =
      rw (handle, read-short_lem from_utf8_lossy checks tail short)
  handle-messages (m ∷ ms) tail (suc fuel) v short enough = rw (
    handle,
    read-message m (messages ms tail) v.0,
    handle-messages ms tail fuel v.1 short (omega arith),
  )

  -- The loop ends on every stream: each round takes a header of twelve bytes at least.
  pub handle_total :
      (fuel : ℕ) (stream : List ℕ)
      → length stream < fuel
      → (events : List TelemetryEvent) × (panicked : Bool) × (handle from_utf8_lossy fuel checks
            stream
          ≡ some (events, panicked))
  unfolding handle ReadsLess
  handle_total zero stream h = absurd (omega arith)
  handle_total (suc fuel) stream h = elim (read-ReadsLess from_utf8_lossy checks stream) [
    | inl (e, rest, r, less) ↦
        let (events, panicked, t) = handle_total fuel rest (omega arith) in
        (e ∷ events, panicked, rw (handle, r, t))
    | inr (inl r) ↦ ([], false, rw (handle, r))
    | inr (inr r) ↦ ([], true, rw (handle, r))
  ]

-- A message whose length field is below twelve, on a stream that ends before 65536 bytes more than
-- the negative length says: with overflow checks the task panics, and without them the read of the
-- body fails, so that no event comes out of the message or of what follows it.
pub read_telemetry_event_underflow :
    (from_utf8_lossy : List ℕ → List ℕ) (header rest : List ℕ)
    → length header ≡ 12
    → be_u16 (drop 10 header) < 12
    → length rest < be_u16 (drop 10 header) + 65524
    → (read_telemetry_event from_utf8_lossy true (header ++ rest) ≡ panic)
      × (read_telemetry_event from_utf8_lossy false (header ++ rest) ≡ err)
unfolding read_telemetry_event body_length
read_telemetry_event_underflow from_utf8_lossy header rest l h short = (
  rw (read_exact-append 12 header rest l, lt→ltb (be_u16 (drop 10 header)) 12 h),
  rw (
    read_exact-append 12 header rest l,
    lt→ltb (be_u16 (drop 10 header)) 12 h,
    read_exact-short (be_u16 (drop 10 header) + 65536 - 12) rest (omega arith),
  ),
)
