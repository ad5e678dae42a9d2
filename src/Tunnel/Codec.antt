-- ===== src/Tunnel/Codec.antt =====
-- The module `codec` of src/servers/tunnel.rs: tunnel messages and their framing.
pub mod Streaming
pub mod RoundTrip
use pocket_relay_client_shar.Prelude.{
  ℕ, ◌%◌, Option, none, some, List, ◌++◌, ltb, if◌then◌else◌, length, Outcome, ok, ◌>>=◌, expect,
}
use pocket_relay_client_shar.Prelude.Bytes.{get_u8, get_u16, split_to, put_u8, put_u16, Read}

pub record TunnelMessageHeader : Type 0 where
  pub index : ℕ
  pub length : ℕ

pub record TunnelMessage : Type 0 where
  pub index : ℕ
  pub message : List ℕ

pub record TunnelCodec : Type 0 where
  pub partial : Option TunnelMessageHeader

abbrev pub default : TunnelCodec
default = record { partial = none }

unfoldable pub read_header : Read TunnelMessageHeader
read_header src = do
  (index, src) ← get_u8 src
  (length, src) ← get_u16 src
  ok (record { index = index; length = length }, src)

-- `decode` once `self.partial` holds `partial`.
unfoldable pub decode_payload :
    TunnelCodec
    → TunnelMessageHeader
    → List ℕ
    → Outcome (Option TunnelMessage × TunnelCodec × List ℕ)
decode_payload self partial src =
    if ltb (length src) partial.length then ok (none, self, src) else do
      partial ← expect self.partial
      (bytes, src) ← split_to partial.length src
      ok (some (record { index = partial.index; message = bytes }), default, src)

-- `TunnelCodec::decode`, with the codec and the buffer as it leaves them; it never gives `Err`.
unfoldable pub decode : TunnelCodec → List ℕ → Outcome (Option TunnelMessage × TunnelCodec × List ℕ)
unfolding decode_payload
decode self src = elim self.partial [
  | some partial ↦ decode_payload self partial src
  | none ↦ if ltb (length src) 5 then ok (none, self, src) else do
    (header, src) ← read_header src
    decode_payload (record { partial = some header }) header src
]

-- `TunnelCodec::encode` appends to `dst`.
unfoldable pub encode : TunnelMessage → List ℕ → List ℕ
encode item dst =
    let dst = put_u8 dst item.index in
    let dst = put_u16 dst (length item.message % 65536) in dst ++ item.message
