-- ===== src/Tests/Lookups.antt =====
-- src/servers/qos.rs, src/servers/redirector.rs, src/servers/http.rs and src/api.rs on concrete inputs.
use pocket_relay_client_shar.Prelude.{
  append-nil, ◌<◌, Outcome, ℕ, ◌≡◌, ◌↔◌, refl, false, ltb, Option, none, some, List, [], ◌∷◌, ◌++◌,
  arith, length, take, drop, All,
}
use pocket_relay_client_shar.Prelude.Text.{starts_with, text_eq}
use pocket_relay_client_shar.Fire.{Frame, FrameHeader, request, respond}
use pocket_relay_client_shar.Qos
use pocket_relay_client_shar.Qos.{
  Ipv4, v4, unset, set, text, request_failed, fetch_address, public_address,
}
use pocket_relay_client_shar.Qos.Answers.{handle-read, read_trailer}
use pocket_relay_client_shar.Redirector
use pocket_relay_client_shar.Redirector.{
  TdfCalls, Event, Written, End, End.failed, packet, written, write_failed, timed_out, read_failed,
  unlinked, finished, yes_, local_instance_response, timeout, read, write,
}
use pocket_relay_client_shar.Redirector.Session.{packets, IsRequest}
use pocket_relay_client_shar.Redirector.Wire.{answers, redirect-answers}
use pocket_relay_client_shar.Framing.{Receives}
use pocket_relay_client_shar.Fire
use pocket_relay_client_shar.Fire.RoundTrip.{IsEncodable, encode_all, receive-encode_all}
use pocket_relay_client_shar.Api
use pocket_relay_client_shar.Api.{
  Crates, ServerDetails, LookupData, host_url, inferred_scheme, server_ident, details_endpoint,
  lookup_server, server_url,
}
use pocket_relay_client_shar.Context.{ClientContext}
use pocket_relay_client_shar.Http
use pocket_relay_client_shar.Http.Answers.{Answers, handle-Answers}
use pocket_relay_client_shar.Api.Lookup.{lookup_server-ok}

abbrev home : Ipv4
home = record { a = 10; b = 0; c = 0; d = 9 }

abbrev datagram : List ℕ
datagram = 1 ∷ 2 ∷ []

handle-read_example :
    (take (length datagram) (Qos.handle (some home) (v4 home 3659) datagram) ≡ datagram)
    × (length (Qos.handle (some home) (v4 home 3659) datagram) ≡ 12)
    × (read_trailer (drop 2 (Qos.handle (some home) (v4 home 3659) datagram))
        ≡ some (record { ip = home; port = 3659; padding = 0 ∷ 0 ∷ 0 ∷ 0 ∷ [] }))
handle-read_example = handle-read (some home) (v4 home 3659) datagram (omega arith)

-- Every text is the address.
abbrev parse : List ℕ → Option Ipv4
parse t = some home

abbrev online : Qos.Network
online = record { now = 100; replies = request_failed ∷ text [] ∷ []; local_ip = none; then_ = 103 }

fetch_run : (fetch_address parse unset online).0 ≡ some home
unfolding fetch_address
fetch_run = refl

abbrev header_of : ℕ → ℕ → FrameHeader
header_of component command = record {
  length = 0;
  component = component;
  command = command;
  error = 0;
  ty = request;
  options = 0;
  seq = 1;
}

abbrev other : Frame
other = record { header = header_of 9 2; contents = [] }

abbrev instance_request : Frame
instance_request = record { header = header_of 5 1; contents = [] }

abbrev serialize : TdfCalls → List ℕ
serialize calls = 0 ∷ []

other_only : All (λ g. ¬ (IsRequest g)) (other ∷ [])
other_only = ((λ r. omega (arith, r.0)), tt)

header_IsEncodable :
    (component command : ℕ)
    → component < 65536
    → command < 65536
    → IsEncodable (record { header = header_of component command; contents = [] })
header_IsEncodable component command a b = record {
  length_eq = refl;
  length_fits = omega arith;
  component_fits = a;
  command_fits = b;
  error_fits = omega arith;
  options_fit = omega arith;
  seq_fits = omega arith;
}

abbrev sent : List ℕ
sent = encode_all (other ∷ instance_request ∷ []) []

abbrev replied : List ℕ
replied =
    encode_all (Redirector.handle serialize yes_ (packets (other ∷ instance_request ∷ []) [])).0 []

redirect-answers_example :
    Receives Fire.decode Fire.default [] Fire.default []
      (replied ∷ [])
      (answers serialize (other ∷ []) instance_request)
    × ((Redirector.handle serialize yes_ (packets (other ∷ instance_request ∷ []) [])).1 ≡ finished)
redirect-answers_example =
    redirect-answers serialize (other ∷ []) instance_request [] (sent ∷ []) Fire.default []
      (other ∷ instance_request ∷ []) [] (replied ∷ [])
      (header_IsEncodable 9 2 (omega arith) (omega arith), tt)
      (header_IsEncodable 5 1 (omega arith) (omega arith)) tt other_only (refl, refl) (omega arith)
      (append-nil sent)
      (receive-encode_all (other ∷ instance_request ∷ []) (sent ∷ [])
        (
          header_IsEncodable 9 2 (omega arith) (omega arith),
          (header_IsEncodable 5 1 (omega arith) (omega arith), tt),
        )
        (append-nil sent))
      (append-nil replied)

abbrev host : List ℕ
host = b'a' ∷ b'.' ∷ b'b' ∷ []

host_no_slash : starts_with host (b'/' ∷ []) ≡ false
unfolding starts_with
host_no_slash = refl

-- A URL is its text, and a version a number.
abbrev crates : Crates
crates = record {
  Url = List ℕ;
  from_str = λ t. some t;
  port = λ url. none;
  set_https = λ url. url;
  join = λ url path. some (url ++ path);
  Version = ℕ;
  version_lt = ltb;
  version_new = λ major minor patch. minor;
}

abbrev server : ServerDetails crates
server = record {
  version = 6;
  ident = some server_ident;
  association = some (1 ∷ []);
  tunnel_port = none;
}

abbrev network : List ℕ → Api.Response crates
network url = Api.details server

abbrev found : LookupData crates
found = record { url = host_url host; version = 6; association = some (1 ∷ []); tunnel_port = none }

lookup_server-ok_example : (lookup_server crates network host ≡ Outcome.ok (Api.ok found)) ↔ (
    (url : List ℕ) × (info_url : List ℕ) × (d : ServerDetails crates) × (server_url crates host
      ≡ some url)
    × (some (url ++ details_endpoint) ≡ some info_url)
    × (network info_url ≡ Api.details d)
    × (d.ident ≡ some server_ident)
    × (ltb d.version 5 ≡ false)
    × (found ≡ record {
      url = url;
      version = d.version;
      association = d.association;
      tunnel_port = d.tunnel_port;
    }))
lookup_server-ok_example = lookup_server-ok crates network host found

lookup_run : lookup_server crates network host ≡ Outcome.ok (Api.ok found)
unfolding lookup_server text_eq
lookup_run = refl

-- Every path is its own URL, and the server has one page.
-- The client is a number, and every path is a URL.
abbrev one_page : ℕ → List ℕ → Http.Reply
one_page client url = Http.answered 200 [] (1 ∷ [])

abbrev join : List ℕ → List ℕ → Option (List ℕ)
join url path = some (url ++ path)

abbrev ctx : ClientContext ℕ (List ℕ)
ctx = record { http_client = 1; base_url = b'/' ∷ []; association = none; tunnel_port = none }

handle-Answers_example :
    Answers join one_page ctx host (Http.handle join one_page ctx (some host))
    × (Http.handle join one_page ctx (some (b'/' ∷ host))
        ≡ Http.handle join one_page ctx (some host))
handle-Answers_example = handle-Answers join one_page ctx host host_no_slash
