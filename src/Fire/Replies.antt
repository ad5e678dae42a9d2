-- ===== src/Fire/Replies.antt =====
-- `Frame::response_raw` and its callers: the answers to the frames that `FireCodec` decodes.
use pocket_relay_client_shar.Prelude.{
  ℕ, ◌≤◌, ◌<◌, ◌≡◌, refl, sym, ◌∙◌, subst, Bool-cases, inl, inr, some, List, [], ◌∷◌, ◌++◌, arith,
  ltb, ltb→le, append-nil, length, length-take, take, ok, ok-injective, All,
}
use pocket_relay_client_shar.Prelude.Bytes.{IsU16, IsByte}
use pocket_relay_client_shar.Fire.{
  response, FrameHeader, Frame, FireCodec, default, read_header, decode_contents, decode, encode,
  response_raw,
}
use pocket_relay_client_shar.Fire.Streaming.{decode_contents_lem, read_header-Reads}
use pocket_relay_client_shar.Fire.RoundTrip.{IsEncodable, decode-encode}

-- The fields of a header that come from a sender.
pub record IsHeader (h : FrameHeader) : Type 0 where
  pub length_fits : IsU16 h.length
  pub component_fits : IsU16 h.component
  pub command_fits : IsU16 h.command
  pub error_fits : IsU16 h.error
  pub options_fit : h.options < 16
  pub seq_fits : IsU16 h.seq

read_header-IsHeader :
    (src : List ℕ) (h : FrameHeader) (rest : List ℕ)
    → All IsByte src
    → read_header src ≡ ok (h, rest)
    → IsHeader h
unfolding read_header
read_header-IsHeader (a ∷ b ∷ c ∷ d ∷ e ∷ f ∷ g ∷ h ∷ i ∷ j ∷ k ∷ l ∷ src) hd rest v eq =
    subst (λ p. IsHeader p.0) (ok-injective eq) (omega arith)
read_header-IsHeader _ hd rest v eq = cc eq

cut_IsEncodable :
    (h : FrameHeader) (src : List ℕ)
    → IsHeader h
    → h.length ≤ length src
    → IsEncodable (record { header = h; contents = take h.length src })
cut_IsEncodable h src v fits = record {
  length_eq = omega (arith, length-take h.length src);
  length_fits = v.length_fits;
  component_fits = v.component_fits;
  command_fits = v.command_fits;
  error_fits = v.error_fits;
  options_fit = v.options_fit;
  seq_fits = v.seq_fits;
}

decode_contents-IsEncodable :
    (h : FrameHeader) (src : List ℕ) (f : Frame) (t : FireCodec) (rest : List ℕ)
    → IsHeader h
    → decode_contents (record { current_frame = some h }) h src ≡ ok (some f, t, rest)
    → IsEncodable f
unfolding decode_contents
decode_contents-IsEncodable h src f t rest v eq = elim (Bool-cases (ltb (length src) h.length)) [
  | inl short ↦ cc (rw short at eq)
  | inr full ↦
      let fits = ltb→le (length src) h.length full in
      let taken = sym (decode_contents_lem h src fits) ∙ eq in
      subst IsEncodable (cc taken) (cut_IsEncodable h src v fits)
]

-- A frame that is decoded from bytes by a codec with no pending header is one that `encode` can
-- represent, with the contents as long as its header says.
pub decode-IsEncodable :
    (src : List ℕ) (f : Frame) (t : FireCodec) (rest : List ℕ)
    → All IsByte src
    → decode default src ≡ ok (some f, t, rest)
    → IsEncodable f
unfolding decode
decode-IsEncodable src f t rest v eq = elim (Bool-cases (ltb (length src) 12)) [
  | inl short ↦ cc (rw short at eq)
  | inr full ↦
      let (h, left, _, read) = read_header-Reads src (ltb→le (length src) 12 full) in
      let read_now = rw (append-nil src, append-nil left) at (read []) in
      decode_contents-IsEncodable h left f t rest (read_header-IsHeader src h left v read_now)
        (rw (full, read_now) at eq)
]

pub response_raw-IsEncodable :
    (h : FrameHeader) (contents : List ℕ)
    → IsU16 h.component
    → IsU16 h.command
    → IsU16 h.seq
    → IsU16 (length contents)
    → IsEncodable (response_raw h contents)
unfolding response_raw
response_raw-IsEncodable h contents a b c d = ground arith

-- The encoded answer to a decoded frame decodes to that answer: it is a response with the component,
-- the command and the sequence number of the frame, without an error code, and with the contents
-- given, if these are shorter than 2 ^ 16 bytes.
pub decode-encode-response_raw :
    (src : List ℕ) (f : Frame) (t : FireCodec) (rest contents more : List ℕ)
    → All IsByte src
    → decode default src ≡ ok (some f, t, rest)
    → IsU16 (length contents)
    → (answer : Frame) × (decode default (encode (response_raw f.header contents) [] ++ more)
        ≡ ok (some answer, default, more))
      × (answer.contents ≡ contents)
      × (answer.header.ty ≡ response)
      × (answer.header.component ≡ f.header.component)
      × (answer.header.command ≡ f.header.command)
      × (answer.header.seq ≡ f.header.seq)
      × (answer.header.error ≡ 0)
unfolding response_raw
decode-encode-response_raw src f t rest contents more v eq fits =
    let w = decode-IsEncodable src f t rest v eq in
    let r =
      response_raw-IsEncodable f.header contents w.component_fits w.command_fits w.seq_fits fits in
    (
      response_raw f.header contents,
      decode-encode (response_raw f.header contents) more r,
      refl,
      refl,
      refl,
      refl,
      refl,
      refl,
    )
