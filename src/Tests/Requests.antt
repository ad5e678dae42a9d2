-- ===== src/Tests/Requests.antt =====
-- The accept loops, src/servers/blaze.rs, src/update.rs, and calls of `public_address` in
-- src/servers/qos.rs at the same time, on concrete inputs.
use pocket_relay_client_shar.Prelude.{
  ℕ, ◌≡◌, ◌↔◌, refl, none, some, Option, List, [], ◌∷◌, ◌++◌, Outcome, All, arith, if◌then◌else◌,
}
use pocket_relay_client_shar.Prelude.Text.{code_points, text_eq}
use pocket_relay_client_shar.Reconnect.{Result, ok, err}
use pocket_relay_client_shar.Tasks.{initial}
use pocket_relay_client_shar.Tasks.History.{Event, spawn, run}
use pocket_relay_client_shar.Listeners.{failed, start_telemetry_server}
use pocket_relay_client_shar.Context.{ClientContext}
use pocket_relay_client_shar.Http.{Reply, answered}
use pocket_relay_client_shar.Update.{
  GitHubRelease, GitHubReleaseAsset, get_latest_release, download_latest_release,
}
use pocket_relay_client_shar.Update.Downloads.{segments, update-ok}
use pocket_relay_client_shar.Telemetry.{split}
use pocket_relay_client_shar.Api.Requests.{
  Headers, Exchange, upgraded, upgrade_endpoint, stream_headers,
}
use pocket_relay_client_shar.Api.Requests.Upgrades.{Upgrades}
use pocket_relay_client_shar.Blaze.{linked, handle}
use pocket_relay_client_shar.Blaze.Links.{handle-linked}
use pocket_relay_client_shar.Qos.{Ipv4, text, unset}
use pocket_relay_client_shar.Qos.Calls as Calls
use pocket_relay_client_shar.Qos.Calls.{Turn, World}
use pocket_relay_client_shar.Qos.Calls.Races.{IsDone, rush, run-asked}
use pocket_relay_client_shar.Qos.Calls.Freshness.{Sound, all_looking, run-Sound}

-- Two connections, then an error.
abbrev bind : ℕ → Result ℕ (List (Result ℕ ℕ))
bind port = ok (ok 7 ∷ ok 8 ∷ err 24 ∷ ok 9 ∷ [])

abbrev history : List Event
history = spawn 3 ∷ []

listener_run :
    start_telemetry_server bind (run initial history)
    ≡ (failed 24, record { collection = 3 ∷ 7 ∷ 8 ∷ []; aborted = [] })
unfolding start_telemetry_server
listener_run = refl

abbrev release : GitHubRelease
release = record {
  html_url = [];
  tag_name = code_points "v1";
  name = code_points "One";
  published_at = [];
  assets = [];
}

abbrev asset : GitHubReleaseAsset
asset = record { name = code_points "app"; browser_download_url = code_points "u" }

-- A page for the one URL, with an error status, and bytes elsewhere.
abbrev web : List ℕ → List (List ℕ × List ℕ) → Reply
web url headers =
    if text_eq url (code_points "https://api.github.com/repos/a/b/releases/latest")
    then answered 404 [] (5 ∷ [])
    else answered 200 [] (1 ∷ 2 ∷ [])

abbrev json : List ℕ → Result ℕ GitHubRelease
json body = ok release

update-ok_example :
    ((url : List ℕ) × (split b'/' url ≡ segments (code_points "a") (code_points "b"))
      × ((get_latest_release web json (code_points "a/b") ≡ ok release) ↔ (
          (status : ℕ) × (headers : List (List ℕ × List ℕ)) × (body : List ℕ) × (web url
              ((code_points "accept", code_points "application/json") ∷ [])
            ≡ answered status headers body)
          × (json body ≡ ok release))))
    × ((download_latest_release web asset ≡ ok (1 ∷ 2 ∷ [])) ↔ (
        (status : ℕ) × (headers : List (List ℕ × List ℕ)) × (web asset.browser_download_url []
          ≡ answered status headers (1 ∷ 2 ∷ []))))
update-ok_example =
    update-ok web json (code_points "a") (code_points "b") release asset (1 ∷ 2 ∷ [])
      ((λ e. absurd (omega (arith, e))), tt) ((λ e. absurd (omega (arith, e))), tt)

abbrev header_value : List ℕ → Option (List ℕ)
header_value value = some value

abbrev join : List ℕ → List ℕ → Option (List ℕ)
join url path = some (url ++ path)

abbrev network : List ℕ → Headers → Exchange ℕ
network url headers = upgraded 6

abbrev base : List ℕ
base = code_points "http://localhost/"

-- The client is a number.
abbrev requests : ℕ → List ℕ → Headers → Exchange ℕ
requests http_client = network

abbrev ctx : ClientContext ℕ (List ℕ)
ctx = record { http_client = 1; base_url = base; association = some (1 ∷ []); tunnel_port = none }

handle_run : handle header_value join requests ctx ≡ Outcome.ok (linked 6)
unfolding handle
handle_run = refl

handle-linked_example :
    (handle header_value join requests ctx ≡ Outcome.ok (linked 6))
    ↔ Upgrades header_value join network upgrade_endpoint stream_headers base (some (1 ∷ [])) 6
handle-linked_example = handle-linked header_value join requests ctx 6

abbrev home : Ipv4
home = record { a = 10; b = 0; c = 0; d = 9 }

abbrev parse : List ℕ → Option Ipv4
parse t = some home

abbrev turn : ℕ → ℕ → Turn
turn place now = record {
  place = place;
  network = record { now = now; replies = text [] ∷ []; local_ip = none; then_ = now };
}

-- The first call gets the lock, the second waits for it; both ask the services.
abbrev turns : List Turn
turns = turn 0 100 ∷ turn 1 100 ∷ turn 0 101 ∷ turn 1 102 ∷ turn 1 103 ∷ []

rush-IsDone : All (IsDone) (Calls.run parse turns (rush 2 unset)).calls
unfolding Calls.run
rush-IsDone = (tt, (tt, tt))

run-asked_example : (Calls.run parse turns (rush 2 unset)).asked ≡ 2
run-asked_example = run-asked parse 2 unset turns rush-IsDone

-- The first call fetches; the second looks later, and gets the cached address.
abbrev orderly : List Turn
orderly = turn 0 100 ∷ turn 0 100 ∷ turn 0 101 ∷ turn 1 1000 ∷ []

abbrev quiet : World
quiet = record { cache = unset; calls = all_looking 2; asked = 0 }

orderly-run :
    (Calls.run parse orderly quiet).calls ≡ Calls.fetched (some home) ∷ Calls.cached home 1000 ∷ []
unfolding Calls.run
orderly-run = refl

run-Sound_example : Sound parse orderly (Calls.run parse orderly quiet)
run-Sound_example = run-Sound parse 2 orderly
