-- ===== src/Fire.antt =====
-- src/fire.rs: fire packets and `FireCodec`. Bytes are numbers below 256, words below 2 ^ 16, and a
-- byte buffer is a list; a read past its end would panic.
pub mod Streaming
pub mod RoundTrip
pub mod Replies
use pocket_relay_client_shar.Prelude.{
  ℕ, ◌+◌, ◌*◌, ◌/◌, ◌%◌, ◌^◌, ◌≤◌, ◌<◌, ◌≡◌, Option, none, some, List, [], ◌∷◌, ◌++◌, ltb, ◌==◌,
  if◌then◌else◌, length, Outcome, ok, panic, ◌>>=◌, expect,
}
use pocket_relay_client_shar.Prelude.Bytes.{get_u8, get_u16, split_to, put_u8, put_u16, Read}

pub data FrameType : Type 0 where
  request response notify error : FrameType

-- `ty as u8`
unfoldable pub to_u8 : FrameType → ℕ
to_u8 request = 0
to_u8 response = 1
to_u8 notify = 2
to_u8 error = 3

-- `FrameType::from(u8)`: any other byte is a request.
unfoldable pub from_u8 : ℕ → FrameType
from_u8 value =
    if value == 1
    then response
    else if value == 2
    then notify
    else if value == 3
    then error
    else request

pub record FrameHeader : Type 0 where
  pub length : ℕ
  pub component : ℕ
  pub command : ℕ
  pub error : ℕ
  pub ty : FrameType
  pub options : ℕ
  pub seq : ℕ

pub record Frame : Type 0 where
  pub header : FrameHeader
  pub contents : List ℕ

unfoldable pub response_raw : FrameHeader → List ℕ → Frame
response_raw header contents = record {
  header = record {
    length = length contents;
    component = header.component;
    command = header.command;
    error = 0;
    ty = response;
    options = 0;
    seq = header.seq;
  };
  contents = contents;
}

-- `serialize_vec` of the `tdf` crate is the parameter `serialize`.
unfoldable pub respond : {V : Type 0} → (V → List ℕ) → FrameHeader → V → Frame
respond serialize header value = response_raw header (serialize value)

unfoldable pub response_empty : FrameHeader → Frame
response_empty header = response_raw header []

pub record FireCodec : Type 0 where
  pub current_frame : Option FrameHeader

abbrev pub default : FireCodec
default = record { current_frame = none }

abbrev pub min_header_size : ℕ
min_header_size = 12

-- The reads of the header, in the order of `decode`.
unfoldable pub read_header : Read FrameHeader
read_header src = do
  (length, src) ← get_u16 src
  (component, src) ← get_u16 src
  (command, src) ← get_u16 src
  (error_code, src) ← get_u16 src
  (ty, src) ← get_u8 src
  (options, src) ← get_u8 src
  (seq, src) ← get_u16 src
  ok (
    record {
      length = length;
      component = component;
      command = command;
      error = error_code;
      ty = from_u8 (ty / 16);
      options = options / 16;
      seq = seq;
    },
    src,
  )

-- `decode` once `self.current_frame` holds `current_frame`.
unfoldable pub decode_contents :
    FireCodec → FrameHeader → List ℕ → Outcome (Option Frame × FireCodec × List ℕ)
decode_contents self current_frame src =
    if ltb (length src) current_frame.length then ok (none, self, src) else do
      header ← expect self.current_frame
      (buffer, src) ← split_to header.length src
      ok (some (record { header = header; contents = buffer }), default, src)

-- `FireCodec::decode`, with the codec and the buffer as it leaves them; it never gives `Err`.
unfoldable pub decode : FireCodec → List ℕ → Outcome (Option Frame × FireCodec × List ℕ)
unfolding decode_contents
decode self src = elim self.current_frame [
  | some current_frame ↦ decode_contents self current_frame src
  | none ↦ if ltb (length src) min_header_size then ok (none, self, src) else do
    (header, src) ← read_header src
    decode_contents (record { current_frame = some header }) header src
]

-- `FireCodec::encode` appends to `dst`. A shift of a byte to the left loses the high bits.
unfoldable pub encode : Frame → List ℕ → List ℕ
encode item dst =
    let dst = put_u16 dst (header.length % 65536) in
    let dst = put_u16 dst header.component in
    let dst = put_u16 dst header.command in
    let dst = put_u16 dst header.error in
    let dst = put_u8 dst (to_u8 header.ty * 16 % 256) in
    let dst = put_u8 dst (header.options * 16 % 256) in
    let dst = put_u16 dst header.seq in dst ++ item.contents
  where
    open item use {header}
