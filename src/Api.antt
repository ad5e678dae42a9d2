-- ===== src/Api.antt =====
-- src/api.rs: the lookup of a server. Texts are lists of code points.
-- The crates `url`, `semver` and `reqwest` are parameters: URLs and versions by an interface, and what
-- a request meets as an argument. An error of `reqwest` is a number.
pub mod HostUrl
pub mod Lookup
pub mod Requests
use pocket_relay_client_shar.Prelude.{
  ℕ, Bool, true, false, not, ◌&&◌, ◌||◌, Option, none, some, List, [], ◌∷◌, ◌++◌, ◌==◌,
  if◌then◌else◌, Outcome, expect, ◌>>=◌,
}
use pocket_relay_client_shar.Prelude.Text.{text_eq, starts_with, ends_with}

abbrev pub http_scheme : List ℕ
http_scheme = b'h' ∷ b't' ∷ b't' ∷ b'p' ∷ b':' ∷ b'/' ∷ b'/' ∷ []

abbrev pub https_scheme : List ℕ
https_scheme = b'h' ∷ b't' ∷ b't' ∷ b'p' ∷ b's' ∷ b':' ∷ b'/' ∷ b'/' ∷ []

-- "POCKET_RELAY_SERVER"
abbrev pub server_ident : List ℕ
server_ident =
    b'P' ∷ b'O' ∷ b'C' ∷ b'K' ∷ b'E' ∷ b'T' ∷ b'_' ∷ b'R' ∷ b'E' ∷ b'L' ∷ b'A' ∷ b'Y' ∷ b'_' ∷ b'S'
    ∷ b'E' ∷ b'R' ∷ b'V' ∷ b'E' ∷ b'R' ∷ []

-- `Url::from_str`, `port`, `set_scheme("https")` and `join`, and for `Version` the test `<` and the constructor `new`.
pub record Crates : Type 1 where
  pub Url : Type 0
  pub from_str : List ℕ → Option Url
  pub port : Url → Option ℕ
  pub set_https : Url → Url
  pub join : Url → List ℕ → Option Url
  pub Version : Type 0
  pub version_lt : Version → Version → Bool
  pub version_new : ℕ → ℕ → ℕ → Version

-- "api/server"
abbrev pub details_endpoint : List ℕ
details_endpoint = b'a' ∷ b'p' ∷ b'i' ∷ b'/' ∷ b's' ∷ b'e' ∷ b'r' ∷ b'v' ∷ b'e' ∷ b'r' ∷ []

-- Whether the scheme of the host has to be inferred.
unfoldable pub inferred_scheme : List ℕ → Bool
inferred_scheme host = not (starts_with host http_scheme) && not (starts_with host https_scheme)

-- The text that is parsed as the URL of a host.
unfoldable pub host_url : List ℕ → List ℕ
unfolding inferred_scheme
host_url host =
    let url = (if inferred_scheme host then http_scheme else []) ++ host in
    if ends_with url b'/' then url else url ++ (b'/' ∷ [])

abbrev pub is_443 : Option ℕ → Bool
is_443 none = false
is_443 (some port) = port == 443

abbrev pub is_ident : Option (List ℕ) → Bool
is_ident none = false
is_ident (some value) = text_eq value server_ident

module _ (crates : Crates) where
  open crates use {Url, from_str, port, set_https, join, Version, version_lt, version_new}

  abbrev pub min_server_version : Version
  min_server_version = version_new 0 5 0

  pub record ServerDetails : Type 0 where
    pub version : Version
    pub ident : Option (List ℕ)
    pub association : Option (List ℕ)
    pub tunnel_port : Option ℕ

  pub record LookupData : Type 0 where
    pub url : Url
    pub version : Version
    pub association : Option (List ℕ)
    pub tunnel_port : Option ℕ

  pub data LookupError : Type 0 where
    invalid_host_target : LookupError
    connection_failed error_response invalid_response : ℕ → LookupError
    not_pocket_relay : LookupError
    server_outdated : Version → Version → LookupError

  -- What the request for the details meets.
  pub data Response : Type 0 where
    send_failed : ℕ → Response
    bad_status : ℕ → Response
    bad_json : ℕ → Response
    details : ServerDetails → Response

  pub data Result : Type 0 where
    ok : LookupData → Result
    err : LookupError → Result

  -- The URL of the server, of which the details are asked.
  unfoldable pub server_url : List ℕ → Option Url
  unfolding host_url inferred_scheme
  server_url host = elim (from_str (host_url host)) [
    | none ↦ none
    | some url ↦ some (if is_443 (port url) && inferred_scheme host then set_https url else url)
  ]

  -- The checks of the details.
  unfoldable pub check_details : Url → ServerDetails → Result
  check_details url d =
      if not (is_ident d.ident)
      then err not_pocket_relay
      else if version_lt d.version min_server_version
      then err (server_outdated d.version min_server_version)
      else ok (record {
        url = url;
        version = d.version;
        association = d.association;
        tunnel_port = d.tunnel_port;
      })

  unfoldable pub check_response : Url → Response → Result
  unfolding check_details
  check_response url (send_failed e) = err (connection_failed e)
  check_response url (bad_status e) = err (error_response e)
  check_response url (bad_json e) = err (invalid_response e)
  check_response url (details d) = check_details url d

  -- `lookup_server`; `network` is what a request to a URL meets.
  unfoldable pub lookup_server : (Url → Response) → List ℕ → Outcome Result
  unfolding server_url check_response
  lookup_server network host = elim (server_url host) [
    | none ↦ Outcome.ok (err invalid_host_target)
    | some url ↦ do
      info_url ← expect (join url details_endpoint)
      Outcome.ok (check_response url (network info_url))
  ]
