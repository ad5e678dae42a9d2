-- ===== src/Blaze.antt =====
-- `handle` of src/servers/blaze.rs: a connection of the game is linked to a stream to the server, or is
-- closed. The bytes are copied by tokio.
pub mod Links
use pocket_relay_client_shar.Prelude.{ℕ, Option, List, Outcome, ok, ◌>>=◌}
use pocket_relay_client_shar.Context.{ClientContext}
use pocket_relay_client_shar.Reconnect.{Result, err}
use pocket_relay_client_shar.Api.Requests.{
  Headers, ServerStreamError, Exchange, create_server_stream,
}

pub data End (Io : Type 0) : Type 0 where
  linked : Io → End Io
  closed : ServerStreamError → End Io

abbrev pub link : {Io : Type 0} → Result ServerStreamError Io → End Io
link (Result.ok server_stream) = linked server_stream
link (err e) = closed e

module _ (header_value : List ℕ → Option (List ℕ)) {Client Url Io : Type 0}
    (join : Url → List ℕ → Option Url) (network : Client → Url → Headers → Exchange Io) where
  -- `network` is what a request of the client with a URL and headers meets.
  unfoldable pub handle : ClientContext Client Url → Outcome (End Io)
  unfolding create_server_stream
  handle ctx = do
    result ←
        create_server_stream header_value join (network ctx.http_client) ctx.base_url
          ctx.association
    ok (link result)
