-- ===== src/Blaze/Links.antt =====
-- When a connection of the game is linked.
use pocket_relay_client_shar.Prelude.{ℕ, ◌≡◌, ◌↔◌, Option, List, Outcome, ok, panic, ◌>>=◌}
use pocket_relay_client_shar.Context.{ClientContext}
use pocket_relay_client_shar.Reconnect.{Result, err}
use pocket_relay_client_shar.Api.Requests.{
  Headers, ServerStreamError, Exchange, upgrade_endpoint, stream_headers, create_server_stream,
}
use pocket_relay_client_shar.Api.Requests.Upgrades.{Upgrades, create_server_stream-ok}
use pocket_relay_client_shar.Blaze.{linked, link, handle}

linked_lem :
    {Io : Type 0} (m : Outcome (Result ServerStreamError Io)) (io : Io)
    → ((m >>= λ r. ok (link r)) ≡ ok (linked io)) ↔ (m ≡ ok (Result.ok io))
linked_lem (ok (Result.ok io')) io = (λ e. cc e, λ e. cc e)
linked_lem (ok (err c)) io = (λ e. cc e, λ e. cc e)
linked_lem panic io = (λ e. cc e, λ e. cc e)

module _ (header_value : List ℕ → Option (List ℕ)) {Client Url Io : Type 0}
    (join : Url → List ℕ → Option Url) (network : Client → Url → Headers → Exchange Io) where
  -- A connection of the game is linked to a stream exactly when the one request for an upgrade, with
  -- the constant headers and the token of the association if there is one, meets this stream.
  pub handle-linked :
      (ctx : ClientContext Client Url) (io : Io)
      → (handle header_value join network ctx ≡ ok (linked io))
        ↔ Upgrades header_value join
            (network ctx.http_client)
            upgrade_endpoint
            stream_headers
            ctx.base_url
            ctx.association
            io
  unfolding handle
  handle-linked ctx io =
      let requests = network ctx.http_client in
      let (there, back) =
        create_server_stream-ok header_value join requests ctx.base_url ctx.association io in
      let (out, into) =
        linked_lem (create_server_stream header_value join requests ctx.base_url ctx.association)
          io in
      (λ e. there (out e), λ u. into (back u))
