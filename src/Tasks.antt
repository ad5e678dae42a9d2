-- ===== src/Tasks.antt =====
-- The task collection of src/servers/mod.rs. The handle of a task is a number; `aborted` are the
-- handles whose `abort` was called.
pub mod History
pub mod Calls
use pocket_relay_client_shar.Prelude.{ℕ, Bool, true, false, not, List, [], ◌∷◌, ◌++◌}

pub record Tasks : Type 0 where
  pub collection : List ℕ
  pub aborted : List ℕ

abbrev pub initial : Tasks
initial = record { collection = []; aborted = [] }

abbrev pub is_empty : List ℕ → Bool
is_empty [] = true
is_empty (h ∷ hs) = false

unfoldable pub has_server_tasks : Tasks → Bool
has_server_tasks s = not (is_empty s.collection)

unfoldable pub add_server_task : ℕ → Tasks → Tasks
add_server_task handle s = record s { collection = s.collection ++ (handle ∷ []) }

-- `tokio::spawn` gives the task its handle.
unfoldable pub spawn_server_task : ℕ → Tasks → Tasks
unfolding add_server_task
spawn_server_task handle s = add_server_task handle s

-- The collection is taken out under the lock, and each handle is aborted after that.
abbrev pub abort_each : List ℕ → Tasks → Tasks
abort_each [] s = s
abort_each (h ∷ hs) s = abort_each hs (record s { aborted = s.aborted ++ (h ∷ []) })

unfoldable pub stop_server_tasks : Tasks → Tasks
stop_server_tasks s = abort_each s.collection (record s { collection = [] })
