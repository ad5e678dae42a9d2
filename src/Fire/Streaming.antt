-- ===== src/Fire/Streaming.antt =====
-- `FireCodec::decode` on a stream: it does not panic, and frames do not hang on the chunks.
use native.Mathlib.Nat.{ℕ_set}
use pocket_relay_client_shar.Framing.Outcomes.{Stream, ComesToOne, receives-ComesToOne}
use pocket_relay_client_shar.Prelude.{
  ℕ, suc, ◌≤◌, ◌≡◌, refl, Option, none, some, List, [], ◌∷◌, ◌++◌, arith, ltb, true, append-nil,
  ltb→le, le→ltb, Bool-cases, inl, inr, length, length-append, take, drop, take-append, drop-append,
  length-drop, ok,
}
use pocket_relay_client_shar.Prelude.Bytes.{Reads}
use pocket_relay_client_shar.Framing.{Resumes, ResumesAt, resume, Shrinks, Shrinks-mono}
use pocket_relay_client_shar.Fire.{
  FrameHeader, Frame, FireCodec, default, read_header, decode_contents, decode,
}

pub read_header-Reads : Reads 12 read_header
unfolding read_header
read_header-Reads (a ∷ b ∷ c ∷ d ∷ e ∷ f ∷ g ∷ h ∷ i ∷ j ∷ k ∷ l ∷ rest) _ =
    (_, rest, omega arith, λ more. refl)
read_header-Reads _ short = absurd (omega arith)

-- A pending header counts for one, so that an empty frame is progress too.
abbrev pub measure : FireCodec → List ℕ → ℕ
measure self src = elim self.current_frame [ some header ↦ suc (length src) | none ↦ length src ]

abbrev pub waiting : FrameHeader → FireCodec
waiting header = record { current_frame = some header }

Continues : FrameHeader → List ℕ → Type 0
Continues h src =
    (o : Option Frame) × (t : FireCodec) × (rest : List ℕ) × (decode_contents (waiting h) h src
      ≡ ok (o, t, rest))
    × ((more : List ℕ)
        → decode_contents (waiting h) h (src ++ more) ≡ resume decode o t (rest ++ more))
    × Shrinks o (measure t rest) (suc (length src))

pub decode_contents_lem :
    (h : FrameHeader) (src : List ℕ)
    → h.length ≤ length src
    → decode_contents (waiting h) h src
      ≡ ok (some (record { header = h; contents = take h.length src }), default, drop h.length src)
unfolding decode_contents
decode_contents_lem h src fits = rw (le→ltb (length src) h.length fits)

decode_contents_short :
    (h : FrameHeader) (src : List ℕ)
    → ltb (length src) h.length ≡ true
    → decode_contents (waiting h) h src ≡ ok (none, waiting h, src)
unfolding decode_contents
decode_contents_short h src short = rw short

decode_contents-Continues : (h : FrameHeader) (src : List ℕ) → Continues h src
unfolding Continues decode
decode_contents-Continues h src = elim (Bool-cases (ltb (length src) h.length)) [
  | inl short ↦ (none, waiting h, src, decode_contents_short h src short, λ more. refl, tt)
  | inr full ↦
      let fits = ltb→le (length src) h.length full in
      (
        some (record { header = h; contents = take h.length src }),
        default,
        drop h.length src,
        decode_contents_lem h src fits,
        λ more.
            rw (← take-append h.length src more fits, ← drop-append h.length src more fits)
              (decode_contents_lem h (src ++ more) (omega (arith, length-append src more))),
        omega (arith, length-drop h.length src),
      )
]

decode-Resumes_at :
    (c : Option FrameHeader) (src : List ℕ)
    → ResumesAt decode measure (record { current_frame = c }) src
unfolding decode Continues
decode-Resumes_at (some h) src = decode_contents-Continues h src
decode-Resumes_at none src = elim (Bool-cases (ltb (length src) 12)) [
  | inl short ↦ (none, default, src, rw short, λ more. refl, tt)
  | inr full ↦
      let enough = ltb→le (length src) 12 full in
      let (h, rest, e, read) = read_header-Reads src enough in
      let (o, t, r, now, later, m) = decode_contents-Continues h rest in
      let read_now = read [] in
      (
        o,
        t,
        r,
        rw (full, rw (append-nil src, append-nil rest) at read_now) now,
        λ more.
            rw (le→ltb (length (src ++ more)) 12 (omega (arith, length-append src more)), read more)
              (later more),
        Shrinks-mono o (measure t r) (suc (length rest)) (length src) (omega arith) m,
      )
]

-- `decode` never panics; a result does not change when more bytes come, and a call without a frame
-- can be repeated on the bytes that it left together with the new ones.
pub decode-Resumes : Resumes decode measure
decode-Resumes self src = decode-Resumes_at self.current_frame src

-- For every state of the codec and every stream of bytes there is exactly one triple of a codec, a rest
-- of bytes and a list of frames that the loop of `decode` calls comes to rest with, and it comes to rest
-- with it in whatever chunks the bytes arrive: no bytes make it panic, or go on for ever.
pub decode-ComesToOne : (s : FireCodec) (stream : Stream) → ComesToOne decode s stream
decode-ComesToOne = receives-ComesToOne decode measure decode-Resumes (hlevel ℕ_set)
