-- ===== src/Api/Lookup.antt =====
-- When a lookup succeeds.
use pocket_relay_client_shar.Prelude.{
  ℕ, ◌≡◌, ◌↔◌, refl, ap, Bool-cases, true, false, Option, Option-cases, Outcome, ok-injective, none,
  some, List, inl, inr,
}
use pocket_relay_client_shar.Prelude.Text.{text_eq_sound, text_eq_refl}
use pocket_relay_client_shar.Api.{
  min_server_version, details_endpoint, server_ident, Crates, is_ident, ServerDetails, LookupData,
  Response, details, send_failed, bad_status, bad_json, ok, server_url, check_details,
  check_response, lookup_server,
}

is_ident_iff : (o : Option (List ℕ)) → is_ident o ≡ true → o ≡ some server_ident
is_ident_iff none e = cc e
is_ident_iff (some value) e = ap some (text_eq_sound value server_ident e)

module _ (crates : Crates) where
  open crates use {Url, join, Version, version_lt}

  check_details-ok :
      (url : Url) (d : ServerDetails crates) (found : LookupData crates)
      → check_details crates url d ≡ ok found
      → (d.ident ≡ some server_ident)
        × (version_lt d.version (min_server_version crates) ≡ false)
        × (found ≡ record {
          url = url;
          version = d.version;
          association = d.association;
          tunnel_port = d.tunnel_port;
        })
  unfolding check_details
  check_details-ok url d found e = elim (Bool-cases (is_ident d.ident)) [
    | inr bad ↦ cc (rw (check_details, bad) at e)
    | inl good ↦ elim (Bool-cases (version_lt d.version (min_server_version crates))) [
      | inl old ↦ cc (rw (check_details, good, old) at e)
      | inr new ↦ (is_ident_iff d.ident good, new, cc (rw (check_details, good, new) at e))
    ]
  ]

  IsFound : (Url → Response crates) → List ℕ → LookupData crates → Type 0
  IsFound network host found =
      (url : Url) × (info_url : Url) × (d : ServerDetails crates) × (server_url crates host
        ≡ some url)
      × (join url details_endpoint ≡ some info_url)
      × (network info_url ≡ details d)
      × (d.ident ≡ some server_ident)
      × (version_lt d.version (min_server_version crates) ≡ false)
      × (found ≡ record {
        url = url;
        version = d.version;
        association = d.association;
        tunnel_port = d.tunnel_port;
      })

  lookup_server_complete :
      (network : Url → Response crates) (host : List ℕ) (found : LookupData crates)
      → IsFound network host found
      → lookup_server crates network host ≡ Outcome.ok (ok found)
  unfolding lookup_server check_response check_details IsFound
  lookup_server_complete network host found
        (url, info_url, d, at_url, at_info, at_response, ident, new, same) =
      rw
        (
          lookup_server,
          at_url,
          at_info,
          at_response,
          check_details,
          ident,
          text_eq_refl server_ident,
          new,
          same,
        )
        refl

  check_response_sound :
      (url : Url) (response : Response crates) (found : LookupData crates)
      → check_response crates url response ≡ ok found
      → (d : ServerDetails crates) × (response ≡ details d)
        × (check_details crates url d ≡ ok found)
  unfolding check_response
  check_response_sound url (send_failed c) found e = cc e
  check_response_sound url (bad_status c) found e = cc e
  check_response_sound url (bad_json c) found e = cc e
  check_response_sound url (details d) found e = (d, refl, e)

  lookup_server_sound :
      (network : Url → Response crates) (host : List ℕ) (found : LookupData crates)
      → lookup_server crates network host ≡ Outcome.ok (ok found)
      → IsFound network host found
  unfolding lookup_server IsFound
  lookup_server_sound network host found e = elim (Option-cases (server_url crates host)) [
    | inl none_url ↦ cc (rw (lookup_server, none_url) at e)
    | inr (url, at_url) ↦ elim (Option-cases (join url details_endpoint)) [
      | inl no_info ↦ cc (rw (lookup_server, at_url, no_info) at e)
      | inr (info_url, at_info) ↦
          let answered = rw (lookup_server, at_url, at_info) at e in
          let (d, at_response, checked) =
            check_response_sound url (network info_url) found (ok-injective answered) in
          let (ident, new, same) = check_details-ok url d found checked in
          (url, info_url, d, at_url, at_info, at_response, ident, new, same)
    ]
  ]

  -- A lookup gives data exactly when the text of the host parses as a URL, the request to the path of
  -- the details at this URL gives details whose identifier is that of Pocket Relay, and the version is
  -- not below the minimum; the data are then that URL and the fields of the details.
  pub lookup_server-ok :
      (network : Url → Response crates) (host : List ℕ) (found : LookupData crates)
      → (lookup_server crates network host ≡ Outcome.ok (ok found)) ↔ (
          (url : Url) × (info_url : Url) × (d : ServerDetails crates) × (server_url crates host
            ≡ some url)
          × (join url details_endpoint ≡ some info_url)
          × (network info_url ≡ details d)
          × (d.ident ≡ some server_ident)
          × (version_lt d.version (min_server_version crates) ≡ false)
          × (found ≡ record {
            url = url;
            version = d.version;
            association = d.association;
            tunnel_port = d.tunnel_port;
          }))
  unfolding IsFound
  lookup_server-ok network host found =
      (lookup_server_sound network host found, λ h. lookup_server_complete network host found h)
