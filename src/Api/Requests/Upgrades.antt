-- ===== src/Api/Requests/Upgrades.antt =====
-- When an upgraded connection is made, and by which request.
use pocket_relay_client_shar.Prelude.{
  ℕ, ◌≡◌, ◌≢◌, ◌↔◌, inl, inr, refl, sym, ap, Option, Option-cases, none, some, List, [], ◌∷◌, ◌++◌,
  Outcome, ok, panic, ok-injective, ◌>>=◌, expect, arith, All, ◌∙◌,
}
use pocket_relay_client_shar.Reconnect.{Result}
use pocket_relay_client_shar.Api.Requests.{
  upgrade_endpoint, tunnel_endpoint, association_header, Headers, stream_headers, tunnel_headers,
  Exchange, no_response, error_status, not_upgraded, upgraded, classify, insert_optional,
  create_server_stream, create_server_tunnel,
}

-- The names of a list of insertions, and that no two are the same.
abbrev pub names : Headers → List (List ℕ)
names [] = []
names ((name, value) ∷ headers) = name ∷ names headers

abbrev pub AllDistinct : List (List ℕ) → Type 0
AllDistinct [] = Unit {0}
AllDistinct (n ∷ ns) = All (λ m. n ≢ m) ns × AllDistinct ns

classify-ok :
    {Io : Type 0} (exchange : Exchange Io) (io : Io)
    → classify exchange ≡ Result.ok io
    → exchange ≡ upgraded io
unfolding classify
classify-ok (no_response e) io h = cc h
classify-ok (error_status e) io h = cc h
classify-ok (not_upgraded e) io h = cc h
classify-ok (upgraded io') io h = cc h

upgraded_lem : {Io : Type 0} (io : Io) → ok (classify (upgraded io)) ≡ ok (Result.ok io)
unfolding classify
upgraded_lem io = refl

module _ (header_value : List ℕ → Option (List ℕ)) where
  -- The headers of a request with an association token, or without one: the constant ones, then the
  -- value that the token makes.
  abbrev pub Carries : Option (List ℕ) → Headers → Headers → Type 0
  Carries none constant headers = headers ≡ constant
  Carries (some association) constant headers =
      (value : List ℕ) × (header_value association ≡ some value)
      × (headers ≡ constant ++ ((association_header, value) ∷ []))

  insert_optional-Carries :
      (association : Option (List ℕ)) (constant headers : Headers)
      → (insert_optional header_value association constant ≡ ok headers)
        ↔ Carries association constant headers
  unfolding insert_optional
  insert_optional-Carries none constant headers = (λ e. sym (ok-injective e), λ e. ap ok (sym e))
  insert_optional-Carries (some association) constant headers =
      elim (Option-cases (header_value association)) [
        | inl missing ↦ (λ e. cc (rw (insert_optional, missing) at e), λ c. cc (sym missing ∙ c.1))
        | inr (value, found) ↦ (
          λ e. (value, found, cc (rw (insert_optional, found) at e)),
          λ c. rw (insert_optional, c.1, c.2) refl,
        )
      ]

  stream-AllDistinct :
      (association : Option (List ℕ)) (headers : Headers)
      → Carries association stream_headers headers
      → AllDistinct (names headers)
  stream-AllDistinct none headers c = rw c (ground arith)
  stream-AllDistinct (some association) headers (value, found, e) = rw e (ground arith)

  tunnel-AllDistinct :
      (association : List ℕ) (headers : Headers)
      → Carries (some association) tunnel_headers headers
      → AllDistinct (names headers)
  tunnel-AllDistinct association headers (value, found, e) = rw e (ground arith)

  module _ {Url Io : Type 0} (join : Url → List ℕ → Option Url)
      (network : Url → Headers → Exchange Io) where
    -- A connection is upgraded at an endpoint by one request.
    abbrev pub Upgrades : List ℕ → Headers → Url → Option (List ℕ) → Io → Type 0
    Upgrades endpoint constant base_url association io =
        (url : Url) × (headers : Headers) × (join base_url endpoint ≡ some url)
        × Carries association constant headers
        × AllDistinct (names headers)
        × (network url headers ≡ upgraded io)

    sent_lem :
        (url : Url) (m : Outcome Headers) (io : Io)
        → (m >>= λ headers. ok (classify (network url headers))) ≡ ok (Result.ok io)
        → (headers : Headers) × (m ≡ ok headers) × (network url headers ≡ upgraded io)
    sent_lem url (ok headers) io e =
        (headers, refl, classify-ok (network url headers) io (ok-injective e))
    sent_lem url panic io e = cc e

    Upgrades-iff :
        (endpoint : List ℕ) (constant : Headers) (base_url : Url) (association : Option (List ℕ))
        (io : Io)
        → ((headers : Headers) → Carries association constant headers → AllDistinct (names headers))
        → ((expect (join base_url endpoint) >>= λ url.
              insert_optional header_value association constant >>= λ headers.
              ok (classify (network url headers)))
            ≡ ok (Result.ok io))
          ↔ Upgrades endpoint constant base_url association io
    Upgrades-iff endpoint constant base_url association io distinct = (
      λ e. elim (Option-cases (join base_url endpoint)) [
        | inl missing ↦ cc (rw (missing) at e)
        | inr (url, found) ↦
            let (headers, inserted, met) =
              sent_lem url (insert_optional header_value association constant) io (rw found at e) in
            let carries = (insert_optional-Carries association constant headers).0 inserted in
            (url, headers, found, carries, distinct headers carries, met)
      ],
      λ u.
          rw (u.2, (insert_optional-Carries association constant u.1).1 u.3, u.5) (upgraded_lem io),
    )

    -- A stream to the server is made exactly when the URL of the endpoint can be joined, the token of
    -- the association, if there is one, is the value of a header, and the request to that URL with
    -- the constant headers and the token, no two of them alike in name, meets an upgraded connection.
    pub create_server_stream-ok :
        (base_url : Url) (association : Option (List ℕ)) (io : Io)
        → (create_server_stream header_value join network base_url association ≡ ok (Result.ok io))
          ↔ Upgrades upgrade_endpoint stream_headers base_url association io
    unfolding create_server_stream
    create_server_stream-ok base_url association io =
        Upgrades-iff upgrade_endpoint stream_headers base_url association io
          (stream-AllDistinct association)

    -- The same for the connection of a tunnel, which always has a token.
    pub create_server_tunnel-ok :
        (base_url : Url) (association : List ℕ) (io : Io)
        → (create_server_tunnel header_value join network base_url association ≡ ok (Result.ok io))
          ↔ Upgrades tunnel_endpoint tunnel_headers base_url (some association) io
    unfolding create_server_tunnel insert_optional
    create_server_tunnel-ok base_url association io =
        Upgrades-iff tunnel_endpoint tunnel_headers base_url (some association) io
          (tunnel-AllDistinct association)
