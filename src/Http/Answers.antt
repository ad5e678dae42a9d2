-- ===== src/Http/Answers.antt =====
-- What a client of the HTTP proxy gets.
use pocket_relay_client_shar.Prelude.{
  ℕ, ◌≡◌, ◌⊎◌, inl, inr, refl, sym, subst, false, Option, Option-cases, none, some, List, [], ◌∷◌,
  arith,
}
use pocket_relay_client_shar.Context.{ClientContext}
use pocket_relay_client_shar.Prelude.Text.{starts_with}
use pocket_relay_client_shar.Http.{
  Response, Reply, no_response, no_body, answered, proxy_http_request, empty, answer, strip_slash,
  handle,
}

strip_slash_lem : (path : List ℕ) → starts_with path (b'/' ∷ []) ≡ false → strip_slash path ≡ path
unfolding strip_slash starts_with
strip_slash_lem [] h = refl
strip_slash_lem (c ∷ path) h = ground arith

module _ {Client Url : Type 0} (join : Url → List ℕ → Option Url) (network : Client → Url → Reply)
    (ctx : ClientContext Client Url) where
  -- The response to a request whose path, without its leading slash, is the text.
  abbrev pub Answers : List ℕ → Response → Type 0
  Answers path response =
      ((join ctx.base_url path ≡ none) × (response ≡ empty 503))
      ⊎ ((url : Url) × (join ctx.base_url path ≡ some url)
          × (e : ℕ) × ((network ctx.http_client url ≡ no_response e)
              ⊎ ((status : ℕ) × (headers : List (List ℕ × List ℕ)) × (network ctx.http_client url
                    ≡ no_body status headers e)))
          × (response ≡ empty 500))
      ⊎ ((url : Url) × (join ctx.base_url path ≡ some url)
          × (network ctx.http_client url ≡ answered response.status response.headers response.body))

  reply-Answers :
      (path : List ℕ) (url : Url) (reply : Reply)
      → join ctx.base_url path ≡ some url
      → network ctx.http_client url ≡ reply
      → Answers path (answer (proxy_http_request reply))
  unfolding proxy_http_request
  reply-Answers path url (no_response e) at_url at_reply =
      inr (inl (url, at_url, e, inl at_reply, refl))
  reply-Answers path url (no_body status headers e) at_url at_reply =
      inr (inl (url, at_url, e, inr (status, headers, at_reply), refl))
  reply-Answers path url (answered status headers body) at_url at_reply =
      inr (inr (url, at_url, at_reply))

  joined-Answers :
      (path : List ℕ) → strip_slash path ≡ path → Answers path (handle join network ctx (some path))
  unfolding handle
  joined-Answers path stripped = elim (Option-cases (join ctx.base_url path)) [
    | inl e ↦
        let response : handle join network ctx (some path) ≡ empty 503 = rw (handle, stripped, e) in
        subst (Answers path) (sym response) (inl (e, refl))
    | inr (url, e) ↦
        let response : handle join network ctx (some path)
            ≡ answer (proxy_http_request (network ctx.http_client url)) =
          rw (handle, stripped, e) in
        subst (Answers path) (sym response)
          (reply-Answers path url (network ctx.http_client url) e refl)
  ]

  -- A path is answered alike with a leading slash and without one. The client gets an empty response
  -- with status 503 where the path cannot be joined to the base URL, one with status 500 where the
  -- request to the joined URL or the reading of its body fails, and else the status, the headers and
  -- the body that the server answers.
  pub handle-Answers :
      (path : List ℕ)
      → starts_with path (b'/' ∷ []) ≡ false
      → Answers path (handle join network ctx (some path))
        × (handle join network ctx (some (b'/' ∷ path)) ≡ handle join network ctx (some path))
  unfolding handle strip_slash
  handle-Answers path h =
      let stripped = strip_slash_lem path h in (joined-Answers path stripped, rw (handle, stripped))
