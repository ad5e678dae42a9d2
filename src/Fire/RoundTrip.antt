-- ===== src/Fire/RoundTrip.antt =====
-- `FireCodec::encode` against `FireCodec::decode`.
use pocket_relay_client_shar.Prelude.{
  ℕ, ◌+◌, ◌*◌, ◌/◌, ◌%◌, ◌<◌, ◌≡◌, refl, sym, subst, some, List, [], ◌∷◌, ◌++◌, append_assoc,
  append-nil, arith, le→ltb, length, length-append, take-length_append, drop-length_append, ok, All,
}
use pocket_relay_client_shar.Prelude.Bytes.{IsU16}
use pocket_relay_client_shar.Framing.{Drains, Receives, Receives-concat_inv, concat, idle, frame}
use pocket_relay_client_shar.Fire.{
  FrameType, request, response, notify, error, to_u8, from_u8, Frame, default, read_header, decode,
  encode,
}
use pocket_relay_client_shar.Fire.Streaming.{decode_contents_lem, decode-Resumes, measure}

-- What `encode` can represent: words in range, four bits of options, and the length of the contents.
pub record IsEncodable (f : Frame) : Type 0 where
  pub length_eq : f.header.length ≡ length f.contents
  pub length_fits : IsU16 f.header.length
  pub component_fits : IsU16 f.header.component
  pub command_fits : IsU16 f.header.command
  pub error_fits : IsU16 f.header.error
  pub options_fit : f.header.options < 16
  pub seq_fits : IsU16 f.header.seq

word : (n : ℕ) → IsU16 n → n / 256 % 256 * 256 + n % 256 ≡ n
word n h = omega arith

from_u8-to_u8 : (ty : FrameType) → from_u8 (to_u8 ty * 16 % 256 % 256 / 16) ≡ ty
unfolding from_u8 to_u8
from_u8-to_u8 request = refl
from_u8-to_u8 response = refl
from_u8-to_u8 notify = refl
from_u8-to_u8 error = refl

encode-append : (f : Frame) (dst : List ℕ) → encode f dst ≡ dst ++ encode f []
unfolding encode
encode-append f dst = simp append_assoc

nibble : (n : ℕ) → n < 16 → n * 16 % 256 % 256 / 16 ≡ n
nibble n h = omega arith

length_word : (n : ℕ) → IsU16 n → n % 65536 / 256 % 256 * 256 + n % 65536 % 256 ≡ n
length_word n h = omega arith

read_header-encode :
    (f : Frame) (rest : List ℕ)
    → IsEncodable f
    → read_header (encode f [] ++ rest) ≡ ok (f.header, f.contents ++ rest)
unfolding read_header encode
read_header-encode f rest v = rw (
  length_word f.header.length v.length_fits,
  word f.header.component v.component_fits,
  word f.header.command v.command_fits,
  word f.header.error v.error_fits,
  from_u8-to_u8 f.header.ty,
  word f.header.seq v.seq_fits,
  nibble f.header.options v.options_fit,
)

length-encode : (f : Frame) → length (encode f []) ≡ length f.contents + 12
unfolding encode
length-encode f = omega arith

-- The encoding of a frame decodes to the frame, and the bytes behind it are left.
pub decode-encode :
    (f : Frame) (rest : List ℕ)
    → IsEncodable f
    → decode default (encode f [] ++ rest) ≡ ok (some f, default, rest)
unfolding decode
decode-encode f rest v =
    let e = v.length_eq in
    rw (
      le→ltb (length (encode f [] ++ rest)) 12
          (omega (arith, length-encode f, length-append (encode f []) rest)),
      read_header-encode f rest v,
      decode_contents_lem f.header (f.contents ++ rest)
          (omega (arith, length-append f.contents rest)),
      e,
      take-length_append f.contents rest,
      drop-length_append f.contents rest,
    )

-- `FramedWrite` encodes frames one behind the other into its buffer.
abbrev pub encode_all : List Frame → List ℕ → List ℕ
encode_all [] dst = dst
encode_all (f ∷ fs) dst = encode_all fs (encode f dst)

encode_all-append : (fs : List Frame) (dst : List ℕ) → encode_all fs dst ≡ dst ++ encode_all fs []
encode_all-append [] dst = sym (append-nil dst)
encode_all-append (f ∷ fs) dst =
    rw
      (encode_all-append fs (encode f dst), encode_all-append fs (encode f []), encode-append f dst)
      (append_assoc dst (encode f []) (encode_all fs []))

-- The receiver of a sequence of encoded frames gets these frames and is left with an empty buffer.
pub Drains-encode_all :
    (fs : List Frame) → All IsEncodable fs → Drains decode default [] default (encode_all fs []) fs
unfolding decode
Drains-encode_all [] v = idle refl
Drains-encode_all (f ∷ fs) v = rw (encode_all-append fs (encode f [])) (
    frame default (encode_all fs []) (decode-encode f (encode_all fs []) v.0)
      (Drains-encode_all fs v.1))

-- In whatever chunks the encodings of a sequence of encodable frames arrive, the loop of `decode` calls
-- comes to rest with these frames in their order, and keeps neither bytes nor a pending header.
pub receive-encode_all :
    (fs : List Frame) (chunks : List (List ℕ))
    → All IsEncodable fs
    → concat chunks ≡ encode_all fs []
    → Receives decode default [] default [] chunks fs
receive-encode_all fs chunks v e =
    Receives-concat_inv decode measure decode-Resumes chunks
      (subst (λ b. Drains decode default [] default b fs) (sym e) (Drains-encode_all fs v))
