-- ===== src/Api/Requests.antt =====
-- The other requests of src/api.rs: connections that are upgraded, the publication of telemetry, and
-- the identity of the client. A request's headers are the list of the insertions into its `HeaderMap`.
pub mod Upgrades
use pocket_relay_client_shar.Prelude.{
  ℕ, Option, none, some, List, [], ◌∷◌, ◌++◌, Outcome, ok, panic, ◌>>=◌, expect,
}
use pocket_relay_client_shar.Prelude.Text.{code_points}
use pocket_relay_client_shar.Reconnect.{Result, err}
use pocket_relay_client_shar.Telemetry.{TelemetryEvent}

abbrev pub upgrade_endpoint : List ℕ
upgrade_endpoint = code_points "api/server/upgrade"

abbrev pub tunnel_endpoint : List ℕ
tunnel_endpoint = code_points "api/server/tunnel"

abbrev pub telemetry_endpoint : List ℕ
telemetry_endpoint = code_points "api/server/telemetry"

abbrev pub association_header : List ℕ
association_header = code_points "x-association"

abbrev pub legacy_scheme : List ℕ
legacy_scheme = code_points "x-pocket-relay-scheme"

abbrev pub legacy_host : List ℕ
legacy_host = code_points "x-pocket-relay-host"

abbrev pub legacy_port : List ℕ
legacy_port = code_points "x-pocket-relay-port"

abbrev pub legacy_local_http : List ℕ
legacy_local_http = code_points "x-pocket-relay-local-http"

abbrev pub Headers : Type 0
Headers = List (List ℕ × List ℕ)

-- The constant headers of the upgrade to a stream of the game; the port is `HTTP_PORT`.
abbrev pub stream_headers : Headers
stream_headers =
    (code_points "connection", code_points "Upgrade")
    ∷ (code_points "upgrade", code_points "blaze")
    ∷ (legacy_scheme, code_points "http")
    ∷ (legacy_host, code_points "127.0.0.1")
    ∷ (legacy_port, code_points "42131")
    ∷ (legacy_local_http, code_points "true")
    ∷ []

abbrev pub tunnel_headers : Headers
tunnel_headers =
    (code_points "connection", code_points "Upgrade")
    ∷ (code_points "upgrade", code_points "tunnel")
    ∷ []

-- An error of `reqwest` is a number.
pub data ServerStreamError : Type 0 where
  request_failed server_error upgrade_failure : ℕ → ServerStreamError

-- What a request to upgrade meets: no response, a response with an error's status, one that cannot be
-- upgraded, or the upgraded connection.
pub data Exchange (Io : Type 0) : Type 0 where
  no_response error_status not_upgraded : ℕ → Exchange Io
  upgraded : Io → Exchange Io

unfoldable pub classify : {Io : Type 0} → Exchange Io → Result ServerStreamError Io
classify (no_response e) = err (request_failed e)
classify (error_status e) = err (server_error e)
classify (not_upgraded e) = err (upgrade_failure e)
classify (upgraded io) = Result.ok io

-- `header_value` is `HeaderValue::from_str`: the value that it makes of a text, or an error.
module _ (header_value : List ℕ → Option (List ℕ)) where
  -- `headers.insert` of the association token.
  unfoldable pub insert_association : List ℕ → Headers → Outcome Headers
  insert_association association headers = do
    value ← expect (header_value association)
    ok (headers ++ ((association_header, value) ∷ []))

  unfoldable pub insert_optional : Option (List ℕ) → Headers → Outcome Headers
  unfolding insert_association
  insert_optional none headers = ok headers
  insert_optional (some association) headers = insert_association association headers

  -- `join` is `Url::join`, and `network` what a request with a URL and headers meets.
  module _ {Url Io : Type 0} (join : Url → List ℕ → Option Url)
      (network : Url → Headers → Exchange Io) where
    unfoldable pub create_server_stream :
        Url → Option (List ℕ) → Outcome (Result ServerStreamError Io)
    unfolding insert_optional classify
    create_server_stream base_url association = do
      endpoint_url ← expect (join base_url upgrade_endpoint)
      headers ← insert_optional association stream_headers
      ok (classify (network endpoint_url headers))

    unfoldable pub create_server_tunnel : Url → List ℕ → Outcome (Result ServerStreamError Io)
    unfolding insert_association classify
    create_server_tunnel base_url association = do
      endpoint_url ← expect (join base_url tunnel_endpoint)
      headers ← insert_association association tunnel_headers
      ok (classify (network endpoint_url headers))

-- What a publication meets: no response, a response with an error's status, or another response.
pub data Published : Type 0 where
  unreachable refused : ℕ → Published
  accepted : Published

unfoldable pub publish_result : Published → Result ℕ (Unit {0})
publish_result (unreachable e) = err e
publish_result (refused e) = err e
publish_result accepted = Result.ok tt

-- `network` is what a post of an event to a URL meets.
unfoldable pub publish_telemetry_event :
    {Url : Type 0}
    → (Url → List ℕ → Option Url)
    → (Url → TelemetryEvent → Published)
    → Url
    → TelemetryEvent
    → Outcome (Result ℕ (Unit {0}))
unfolding publish_result
publish_telemetry_event join network base_url event = do
  endpoint_url ← expect (join base_url telemetry_endpoint)
  ok (publish_result (network endpoint_url event))

-- An error of `std::io` is a number too.
pub data ClientIdentityError : Type 0 where
  read create : ℕ → ClientIdentityError

-- `read_file` is `std::fs::read`, and `from_pkcs12_der` that of `Identity` with a blank password.
unfoldable pub read_client_identity :
    {Identity : Type 0}
    → (List ℕ → Result ℕ (List ℕ))
    → (List ℕ → Result ℕ Identity)
    → List ℕ
    → Result ClientIdentityError Identity
read_client_identity read_file from_pkcs12_der path = elim (read_file path) [
  | err e ↦ err (read e)
  | Result.ok bytes ↦ elim (from_pkcs12_der bytes) [
    | err e ↦ err (create e)
    | Result.ok identity ↦ Result.ok identity
  ]
]

-- The name of the crate's client, and the version of the package, which the build knows.
abbrev pub user_agent : List ℕ → List ℕ
user_agent version = code_points "PocketRelayClient/v" ++ version

-- `with_agent`, `with_identity` and `build` are `Client::builder().user_agent`, `identity` and `build`.
unfoldable pub create_http_client :
    {Builder Identity Client : Type 0}
    → (List ℕ → Builder)
    → (Builder → Identity → Builder)
    → (Builder → Result ℕ Client)
    → List ℕ
    → Option Identity
    → Result ℕ Client
create_http_client with_agent with_identity build version none =
    build (with_agent (user_agent version))
create_http_client with_agent with_identity build version (some identity) =
    build (with_identity (with_agent (user_agent version)) identity)
