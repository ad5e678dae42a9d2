-- ===== src/Tests/Codecs.antt =====
-- The codecs of src/fire.rs and src/servers/tunnel.rs on concrete bytes.
use pocket_relay_client_shar.Prelude.{ℕ, ◌≡◌, refl, some, List, [], ◌∷◌, arith, ok}
use pocket_relay_client_shar.Framing.{Receives, concat}
use pocket_relay_client_shar.Fire
use pocket_relay_client_shar.Fire.{Frame, FrameHeader, FireCodec, request, response, response_raw}
use pocket_relay_client_shar.Fire.RoundTrip.{IsEncodable, encode_all, receive-encode_all}
use pocket_relay_client_shar.Fire.Streaming.{decode-ComesToOne}
use pocket_relay_client_shar.Framing.Outcomes.{ComesToOne, in_chunks}
use pocket_relay_client_shar.Tunnel.Codec
use pocket_relay_client_shar.Tunnel.Codec.{TunnelMessage, TunnelCodec}
use pocket_relay_client_shar.Tunnel.Codec.RoundTrip
use pocket_relay_client_shar.Tunnel.Codec.RoundTrip.{
  IsLong, tunnel_receive-encode_all, tunnel_decode-encode,
}

abbrev ping_request : Frame
ping_request = record {
  header = record {
    length = 3;
    component = 9;
    command = 2;
    error = 0;
    ty = request;
    options = 0;
    seq = 300;
  };
  contents = 7 ∷ 8 ∷ 9 ∷ [];
}

abbrev ping_bytes : List ℕ
ping_bytes = 0 ∷ 3 ∷ 0 ∷ 9 ∷ 0 ∷ 2 ∷ 0 ∷ 0 ∷ 0 ∷ 0 ∷ 1 ∷ 44 ∷ 7 ∷ 8 ∷ 9 ∷ []

encode-ping : Fire.encode ping_request [] ≡ ping_bytes
unfolding Fire.encode Fire.to_u8
encode-ping = refl

decode-ping : Fire.decode Fire.default ping_bytes ≡ ok (some ping_request, Fire.default, [])
unfolding Fire.decode Fire.read_header Fire.from_u8
decode-ping = refl

ping_request-IsEncodable : IsEncodable ping_request
ping_request-IsEncodable = record {
  length_eq = refl;
  length_fits = omega arith;
  component_fits = omega arith;
  command_fits = omega arith;
  error_fits = omega arith;
  options_fit = omega arith;
  seq_fits = omega arith;
}

two_chunks-ping :
    concat ((0 ∷ 3 ∷ 0 ∷ []) ∷ (9 ∷ 0 ∷ 2 ∷ 0 ∷ 0 ∷ 0 ∷ 0 ∷ 1 ∷ 44 ∷ 7 ∷ 8 ∷ 9 ∷ []) ∷ [])
    ≡ encode_all (ping_request ∷ []) []
unfolding Fire.encode Fire.to_u8
two_chunks-ping = refl

receive-encode_all_example :
    Receives Fire.decode Fire.default [] Fire.default []
      ((0 ∷ 3 ∷ 0 ∷ []) ∷ (9 ∷ 0 ∷ 2 ∷ 0 ∷ 0 ∷ 0 ∷ 0 ∷ 1 ∷ 44 ∷ 7 ∷ 8 ∷ 9 ∷ []) ∷ [])
      (ping_request ∷ [])
receive-encode_all_example =
    receive-encode_all (ping_request ∷ [])
      ((0 ∷ 3 ∷ 0 ∷ []) ∷ (9 ∷ 0 ∷ 2 ∷ 0 ∷ 0 ∷ 0 ∷ 0 ∷ 1 ∷ 44 ∷ 7 ∷ 8 ∷ 9 ∷ []) ∷ [])
      (ping_request-IsEncodable, tt) two_chunks-ping

decode-ComesToOne_example :
    ComesToOne Fire.decode Fire.default (in_chunks ((0 ∷ 3 ∷ []) ∷ (1 ∷ []) ∷ []))
decode-ComesToOne_example =
    decode-ComesToOne Fire.default (in_chunks ((0 ∷ 3 ∷ []) ∷ (1 ∷ []) ∷ []))

abbrev greeting : TunnelMessage
greeting = record { index = 1; message = 10 ∷ 20 ∷ [] }

abbrev tunnel_ping : TunnelMessage
tunnel_ping = record { index = 255; message = [] }

greeting-IsLong : IsLong greeting
greeting-IsLong = (record { index_fits = omega arith; length_fits = omega arith }, omega arith)

greeting_bytes :
    concat ((1 ∷ 0 ∷ []) ∷ (2 ∷ 10 ∷ 20 ∷ []) ∷ []) ≡ RoundTrip.encode_all (greeting ∷ []) []
unfolding Codec.encode
greeting_bytes = refl

tunnel_receive-encode_all_example :
    Receives Codec.decode Codec.default [] Codec.default []
      ((1 ∷ 0 ∷ []) ∷ (2 ∷ 10 ∷ 20 ∷ []) ∷ [])
      (greeting ∷ [])
tunnel_receive-encode_all_example =
    tunnel_receive-encode_all (greeting ∷ []) ((1 ∷ 0 ∷ []) ∷ (2 ∷ 10 ∷ 20 ∷ []) ∷ [])
      (greeting-IsLong, tt) greeting_bytes
