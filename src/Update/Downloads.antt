-- ===== src/Update/Downloads.antt =====
-- What the requests of src/update.rs give.
use pocket_relay_client_shar.Prelude.{ℕ, ◌≡◌, ◌↔◌, refl, ap, ◌∙◌, List, [], ◌∷◌, ◌++◌, append_assoc}
use pocket_relay_client_shar.Prelude.Text.{code_points}
use pocket_relay_client_shar.Telemetry.{split}
use pocket_relay_client_shar.Telemetry.Values.{Without, split-append}
use pocket_relay_client_shar.Reconnect.{Result, ok, >>=-eq-ok}
use pocket_relay_client_shar.Http.{Reply, no_response, no_body, answered}
use pocket_relay_client_shar.Update.{
  GitHubReleaseAsset, GitHubRelease, release_url, accept_json, read_body, get_latest_release,
  download_latest_release,
}

read_body-ok :
    (reply : Reply) (body : List ℕ)
    → (read_body reply ≡ ok body)
      ↔ ((status : ℕ) × (headers : List (List ℕ × List ℕ)) × (reply ≡ answered status headers body))
unfolding read_body
read_body-ok (no_response e) body = (λ h. cc h, λ h. cc h.2)
read_body-ok (no_body status headers e) body = (λ h. cc h, λ h. cc h.2)
read_body-ok (answered status headers body') body = (λ h. (status, headers, cc h), λ h. cc h.2)

-- Where GitHub has the latest release of a repository, split at the slashes.
abbrev pub segments : List ℕ → List ℕ → List (List ℕ)
segments owner name =
    code_points "https:"
    ∷ []
    ∷ code_points "api.github.com"
    ∷ code_points "repos"
    ∷ owner
    ∷ name
    ∷ code_points "releases"
    ∷ code_points "latest"
    ∷ []

split-release_url :
    (owner name : List ℕ)
    → Without b'/' owner
    → Without b'/' name
    → split b'/' (release_url (owner ++ b'/' ∷ name)) ≡ segments owner name
unfolding split
split-release_url owner name o n =
    let before : List (List ℕ) → List (List ℕ) = λ parts.
      code_points "https:" ∷ [] ∷ code_points "api.github.com" ∷ code_points "repos" ∷ parts in
    let latest = code_points "releases/latest" in
    ap (λ l. before (split b'/' l)) (append_assoc owner (b'/' ∷ name) (b'/' ∷ latest))
    ∙ ap before (split-append b'/' owner (name ++ b'/' ∷ latest) o)
    ∙ ap (λ parts. before (owner ∷ parts)) (split-append b'/' name latest n)

module _ (network : List ℕ → List (List ℕ × List ℕ) → Reply) where
  -- For a repository, given by its owner and its name, there is one URL, which split at its slashes is
  -- the place of the latest release at the API of GitHub, such that a release is found exactly when the
  -- request for this URL that accepts JSON is answered by a body that decodes to it; and an asset is
  -- downloaded exactly when the request for its URL is answered by the bytes. In both the answer may
  -- have any status, an error's too.
  pub update-ok :
      (json : List ℕ → Result ℕ GitHubRelease) (owner name : List ℕ) (release : GitHubRelease)
      (asset : GitHubReleaseAsset) (bytes : List ℕ)
      → Without b'/' owner
      → Without b'/' name
      → ((url : List ℕ) × (split b'/' url ≡ segments owner name)
          × ((get_latest_release network json (owner ++ b'/' ∷ name) ≡ ok release) ↔ (
              (status : ℕ) × (headers : List (List ℕ × List ℕ)) × (body : List ℕ) × (network url
                  ((code_points "accept", code_points "application/json") ∷ [])
                ≡ answered status headers body)
              × (json body ≡ ok release))))
        × ((download_latest_release network asset ≡ ok bytes) ↔ (
            (status : ℕ) × (headers : List (List ℕ × List ℕ)) × (network asset.browser_download_url
                []
              ≡ answered status headers bytes)))
  unfolding get_latest_release download_latest_release
  update-ok json owner name release asset bytes o n =
      let url = release_url (owner ++ b'/' ∷ name) in
      (
        (
          url,
          split-release_url owner name o n,
          (
            λ e.
                let (body, found, decoded) =
                  >>=-eq-ok (read_body (network url accept_json)) json e in
                let (status, headers, met) = (read_body-ok _ body).0 found in
                (status, headers, body, met, decoded),
            λ h. rw ((read_body-ok _ h.2).1 (h.0, h.1, h.3), h.4) refl,
          ),
        ),
        read_body-ok (network asset.browser_download_url []) bytes,
      )
