-- ===== src/Update.antt =====
-- src/update.rs: the latest release on GitHub, and the download of an asset.
pub mod Downloads
use pocket_relay_client_shar.Prelude.{ℕ, List, [], ◌∷◌, ◌++◌}
use pocket_relay_client_shar.Prelude.Text.{code_points}
use pocket_relay_client_shar.Reconnect.{Result, ok, err, ◌>>=◌}
use pocket_relay_client_shar.Http.{Reply, no_response, no_body, answered}

pub record GitHubReleaseAsset : Type 0 where
  pub name : List ℕ
  pub browser_download_url : List ℕ

pub record GitHubRelease : Type 0 where
  pub html_url : List ℕ
  pub tag_name : List ℕ
  pub name : List ℕ
  pub published_at : List ℕ
  pub assets : List GitHubReleaseAsset

abbrev pub release_url : List ℕ → List ℕ
release_url repository =
    code_points "https://api.github.com/repos/" ++ (repository ++ code_points "/releases/latest")

abbrev pub accept_json : List (List ℕ × List ℕ)
accept_json = (code_points "accept", code_points "application/json") ∷ []

-- `send` and the read of the body: an error of either, or the body.
unfoldable pub read_body : Reply → Result ℕ (List ℕ)
read_body (no_response e) = err e
read_body (no_body status headers e) = err e
read_body (answered status headers body) = ok body

-- `network` is what a request to a URL with headers meets.
module _ (network : List ℕ → List (List ℕ × List ℕ) → Reply) where
  -- `json` is the decoding of a body by serde.
  unfoldable pub get_latest_release :
      (List ℕ → Result ℕ GitHubRelease) → List ℕ → Result ℕ GitHubRelease
  unfolding read_body
  get_latest_release json repository = do
    body ← read_body (network (release_url repository) accept_json)
    json body

  unfoldable pub download_latest_release : GitHubReleaseAsset → Result ℕ (List ℕ)
  unfolding read_body
  download_latest_release asset = read_body (network asset.browser_download_url [])
