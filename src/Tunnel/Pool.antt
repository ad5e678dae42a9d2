-- ===== src/Tunnel/Pool.antt =====
-- `Socket::allocate_pool` and `Socket::start`, the same in src/servers/tunnel.rs and
-- src/servers/udp_tunnel.rs: four sockets are started at the same time by `try_join!`, and the waits of
-- the four may end in any order. A task is a number, and an error of `std::io` too.
pub mod Stages
pub mod Joins
pub mod Schedules
use pocket_relay_client_shar.Prelude.{
  ℕ, zero, suc, Option, none, some, List, [], ◌∷◌, get_elem?, set_elem, map,
}
use pocket_relay_client_shar.Reconnect.{Result, ok, err, ◌>>=◌}
use pocket_relay_client_shar.Tasks.{Tasks, spawn_server_task}

abbrev pub tunnel_host_port : ℕ
tunnel_host_port = 42132

abbrev pub random_port : ℕ
random_port = 0

-- The arguments of `start`.
pub record Start : Type 0 where
  pub index : ℕ
  pub port : ℕ

-- A handle to the socket that was started with these arguments, and runs as this task.
pub record SocketHandle : Type 0 where
  pub start : Start
  pub task : ℕ

-- Where a call of `start` is: it waits for its bind, it waits for its connect, or it is done.
pub data Stage : Type 0 where
  binding : Start → Stage
  connecting : Start → Stage
  started : SocketHandle → Stage

abbrev pub starts : List Start
starts =
    record { index = 0; port = tunnel_host_port }
    ∷ record { index = 1; port = random_port }
    ∷ record { index = 2; port = random_port }
    ∷ record { index = 3; port = random_port }
    ∷ []

-- What a wait gives: an error, or success, with the task that `spawn_server_task` would make now.
pub data Answer : Type 0 where
  failure : ℕ → Answer
  success : ℕ → Answer

-- The wait of the call at a place is over.
pub record Event : Type 0 where
  pub place : ℕ
  pub answer : Answer

-- `start`, up to its next wait.
unfoldable pub advance : Stage → Answer → Tasks → Result ℕ (Stage × Tasks)
unfolding spawn_server_task
advance (started handle) answer tasks = ok (started handle, tasks)
advance (binding start) (failure e) tasks = err e
advance (binding start) (success task) tasks = ok (connecting start, tasks)
advance (connecting start) (failure e) tasks = err e
advance (connecting start) (success task) tasks =
    ok (started (record { start = start; task = task }), spawn_server_task task tasks)

unfoldable pub wake : Event → List Stage → Tasks → Result ℕ (List Stage × Tasks)
unfolding advance
wake event stages tasks = elim (get_elem? stages event.place) [
  | none ↦ ok (stages, tasks)
  | some stage ↦ do
    (next, tasks) ← advance stage event.answer tasks
    ok (set_elem stages event.place next, tasks)
]

abbrev pub push : SocketHandle → Option (List SocketHandle) → Option (List SocketHandle)
push handle none = none
push handle (some handles) = some (handle ∷ handles)

-- The handles, if every call is done.
unfoldable pub all_started : List Stage → Option (List SocketHandle)
all_started [] = some []
all_started (binding start ∷ stages) = none
all_started (connecting start ∷ stages) = none
all_started (started handle ∷ stages) = push handle (all_started stages)

-- `try_join!` gives the first error or all the handles, or still waits.
pub data Joined : Type 0 where
  joined : List SocketHandle → Tasks → Joined
  broken : ℕ → Tasks → Joined
  pending : List Stage → Tasks → Joined

unfoldable pub settle :
    (List Stage → Tasks → Joined) → Tasks → Result ℕ (List Stage × Tasks) → Joined
unfolding all_started
settle rest before (err e) = broken e before
settle rest before (ok (stages, tasks)) = elim (all_started stages) [
  | some pool ↦ joined pool tasks
  | none ↦ rest stages tasks
]

unfoldable pub try_join : List Event → List Stage → Tasks → Joined
unfolding settle wake
try_join [] stages tasks = pending stages tasks
try_join (event ∷ events) stages tasks = settle (try_join events) tasks (wake event stages tasks)

unfoldable pub allocate_pool : List Event → Tasks → Joined
unfolding try_join
allocate_pool events tasks = try_join events (map binding starts) tasks
