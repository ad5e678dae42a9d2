-- ===== src/Qos/Calls.antt =====
-- Calls of `public_address` in src/servers/qos.rs that run at the same time. The read guard is given
-- back before the next wait, so that the look at the cache is one step; the write guard is held until
-- the call returns, while it asks the services.
pub mod Races
pub mod Freshness
use pocket_relay_client_shar.Prelude.{
  ℕ, zero, suc, ◌+◌, Bool, true, false, Option, none, some, List, [], ◌∷◌, ◌++◌, ltb, if◌then◌else◌,
  get_elem?, set_elem, total,
}
use pocket_relay_client_shar.Qos.{
  Ipv4, PublicAddrCache, unset, set, Network, first_valid, fetch_address,
}

-- Where a call is: before its look at the cache, at its wait for the write lock, behind it, or at its
-- end, with a cached address and the time of the look, or with what the services gave.
pub data Call : Type 0 where
  looking : Call
  waiting : Call
  holding : Call
  cached : Ipv4 → ℕ → Call
  fetched : Option Ipv4 → Call

abbrev pub holds : Call → ℕ
holds holding = 1
holds _ = 0

-- `asked` counts how often the services were asked.
pub record World : Type 0 where
  pub cache : PublicAddrCache
  pub calls : List Call
  pub asked : ℕ

-- It is the turn of the call at this place, which meets this clock and network.
pub record Turn : Type 0 where
  pub place : ℕ
  pub network : Network

-- No reader and no other writer gets the lock while a call holds it.
abbrev pub is_held : World → Bool
is_held w = ltb 0 (total holds w.calls)

unfoldable pub look : PublicAddrCache → ℕ → Call
look unset now = waiting
look (set value expires) now = if ltb now expires then cached value now else waiting

abbrev pub go_to : ℕ → Call → World → World
go_to i call w = record w { calls = set_elem w.calls i call }

module _ (parse : List ℕ → Option Ipv4) where
  -- The services are asked, the cache is written, and the lock is given back.
  abbrev pub fetch : ℕ → Network → World → World
  fetch i network w =
      let (value, cache) = fetch_address parse w.cache network in
      record w { cache = cache; calls = set_elem w.calls i (fetched value); asked = suc w.asked }

  abbrev pub proceed : ℕ → Network → World → Call → World
  proceed i network w looking = if is_held w then w else go_to i (look w.cache network.now) w
  proceed i network w waiting = if is_held w then w else go_to i holding w
  proceed i network w holding = fetch i network w
  proceed i network w (cached value time) = w
  proceed i network w (fetched value) = w

  unfoldable pub step : Turn → World → World
  unfolding look fetch_address
  step turn w = elim (get_elem? w.calls turn.place) [
    | none ↦ w
    | some call ↦ proceed turn.place turn.network w call
  ]

  unfoldable pub run : List Turn → World → World
  unfolding step
  run [] w = w
  run (turn ∷ turns) w = run turns (step turn w)
