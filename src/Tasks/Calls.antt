-- ===== src/Tasks/Calls.antt =====
-- Calls of `spawn_server_task` and `stop_server_tasks` of src/servers/mod.rs that run at the same time.
-- The lock is held for the push alone and for the taking of the collection alone: a task runs before its
-- handle is pushed, and the handles that were taken are aborted one by one behind the lock.
pub mod Alone
pub mod Ledger
use pocket_relay_client_shar.Prelude.{
  ℕ, zero, suc, ◌+◌, Option, none, some, List, [], ◌∷◌, ◌++◌, get_elem?, set_elem,
}
use pocket_relay_client_shar.Tasks.{Tasks, initial, add_server_task}

-- Where a call is: before `tokio::spawn` of a task, which will have this handle, or behind it and before
-- the push; before it takes the collection, or with the handles that it has yet to abort; at its end.
pub data Call : Type 0 where
  spawning : ℕ → Call
  adding : ℕ → Call
  stopping : Call
  aborting : List ℕ → Call
  returned : Call

pub record World : Type 0 where
  pub tasks : Tasks
  pub calls : List Call

abbrev pub go_to : ℕ → Call → World → World
go_to i call w = record w { calls = set_elem w.calls i call }

abbrev pub abort : ℕ → Tasks → Tasks
abort handle s = record s { aborted = s.aborted ++ (handle ∷ []) }

abbrev pub proceed : ℕ → World → Call → World
proceed i w (spawning handle) = go_to i (adding handle) w
proceed i w (adding handle) = go_to i returned (record w { tasks = add_server_task handle w.tasks })
proceed i w stopping =
    go_to i (aborting w.tasks.collection) (record w { tasks = record w.tasks { collection = [] } })
proceed i w (aborting []) = go_to i returned w
proceed i w (aborting (handle ∷ values)) =
    go_to i (aborting values) (record w { tasks = abort handle w.tasks })
proceed i w returned = w

-- The turn of the call at this place.
unfoldable pub step : ℕ → World → World
unfolding add_server_task
step i w = elim (get_elem? w.calls i) [ none ↦ w | some call ↦ proceed i w call ]

unfoldable pub run : List ℕ → World → World
unfolding step
run [] w = w
run (i ∷ turns) w = run turns (step i w)

abbrev pub start : List Call → World
start calls = record { tasks = initial; calls = calls }
