-- ===== src/Http.antt =====
-- src/servers/http.rs: the handler of the HTTP proxy, and `proxy_http_request` of src/api.rs. Texts are
-- lists of code points, and an error of `reqwest` is a number.
pub mod Answers
use pocket_relay_client_shar.Prelude.{
  Outcome, ℕ, Option, none, some, List, [], ◌∷◌, ◌==◌, if◌then◌else◌,
}
use pocket_relay_client_shar.Context.{ClientContext}
use pocket_relay_client_shar.Reconnect.{Result, ok, err}

pub record Response : Type 0 where
  pub status : ℕ
  pub headers : List (List ℕ × List ℕ)
  pub body : List ℕ

-- What the request to a URL meets: no response, or a status and headers, with the body or an error in
-- place of it.
pub data Reply : Type 0 where
  no_response : ℕ → Reply
  no_body : ℕ → List (List ℕ × List ℕ) → ℕ → Reply
  answered : ℕ → List (List ℕ × List ℕ) → List ℕ → Reply

pub data ProxyError : Type 0 where
  request_failed body_failed : ℕ → ProxyError

unfoldable pub proxy_http_request : Reply → Result ProxyError Response
proxy_http_request (no_response e) = err (request_failed e)
proxy_http_request (no_body status headers e) = err (body_failed e)
proxy_http_request (answered status headers body) =
    ok (record { status = status; headers = headers; body = body })

-- `Response::default()` with a status.
abbrev pub empty : ℕ → Response
empty status = record { status = status; headers = []; body = [] }

-- `path_and_query.strip_prefix('/').unwrap_or(path_and_query)`
unfoldable pub strip_slash : List ℕ → List ℕ
strip_slash [] = []
strip_slash (c ∷ cs) = if c == b'/' then cs else c ∷ cs

abbrev pub unwrap_or_default : Option (List ℕ) → List ℕ
unwrap_or_default none = []
unwrap_or_default (some path) = path

abbrev pub answer : Result ProxyError Response → Response
answer (ok response) = response
answer (err e) = empty 500

-- `join` is that of `Url`, and `network` what a request of the client to a URL meets.
module _ {Client Url : Type 0} (join : Url → List ℕ → Option Url)
    (network : Client → Url → Reply) where
  unfoldable pub handle : ClientContext Client Url → Option (List ℕ) → Response
  unfolding strip_slash proxy_http_request
  handle ctx path_and_query =
      elim (join ctx.base_url (strip_slash (unwrap_or_default path_and_query))) [
        | none ↦ empty 503
        | some url ↦ answer (proxy_http_request (network ctx.http_client url))
      ]

abbrev pub http_port : ℕ
http_port = 42131

-- How the server of hyper ends that a bind gives: by an error of hyper, or without one.
abbrev pub served : (ℕ → ℕ) → Result ℕ (Unit {0}) → Result ℕ (Unit {0})
served io_other (ok _) = ok tt
served io_other (err e) = err (io_other e)

-- `bind` is how a bind of a local port ends; `Server::bind` panics where it fails. `io_other` is
-- `std::io::Error::other`.
unfoldable pub start_http_server :
    (ℕ → Result ℕ (Result ℕ (Unit {0}))) → (ℕ → ℕ) → Outcome (Result ℕ (Unit {0}))
start_http_server bind io_other = elim (bind http_port) [
  | err e ↦ Outcome.panic
  | ok ends ↦ Outcome.ok (served io_other ends)
]
