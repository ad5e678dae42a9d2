-- ===== src/Listeners.antt =====
-- The accept loops of src/servers/blaze.rs, src/servers/telemetry.rs, src/servers/redirector.rs and
-- src/servers/qos.rs: each binds its port, and spawns a task for each connection, or for each datagram.
-- An error of `std::io` is a number, and the handle of a task too.
pub mod Accepts
use pocket_relay_client_shar.Prelude.{ℕ, List, [], ◌∷◌}
use pocket_relay_client_shar.Reconnect.{Result, ok, err}
use pocket_relay_client_shar.Redirector.{blaze_port}
use pocket_relay_client_shar.Tasks.{Tasks, spawn_server_task}

abbrev pub redirector_port : ℕ
redirector_port = 42127

abbrev pub telemetry_port : ℕ
telemetry_port = 42129

abbrev pub qos_port : ℕ
qos_port = 42130

-- How the loop ends, or that it waits for a connection.
pub data End : Type 0 where
  failed : ℕ → End
  waiting : End

-- `listener.accept()` gives connections, each with the handle that its task will have, and errors.
unfoldable pub accept_loop : List (Result ℕ ℕ) → Tasks → End × Tasks
unfolding spawn_server_task
accept_loop [] s = (waiting, s)
accept_loop (err e ∷ accepts) s = (failed e, s)
accept_loop (ok handle ∷ accepts) s = accept_loop accepts (spawn_server_task handle s)

-- What the bind of a local port gives: an error, or the connections that it will accept.
module _ (bind : ℕ → Result ℕ (List (Result ℕ ℕ))) where
  unfoldable pub start_server : ℕ → Tasks → End × Tasks
  unfolding accept_loop
  start_server port s = elim (bind port) [
    | err e ↦ (failed e, s)
    | ok accepts ↦ accept_loop accepts s
  ]

  unfoldable pub start_blaze_server : Tasks → End × Tasks
  unfolding start_server
  start_blaze_server = start_server blaze_port

  unfoldable pub start_telemetry_server : Tasks → End × Tasks
  unfolding start_server
  start_telemetry_server = start_server telemetry_port

  unfoldable pub start_redirector_server : Tasks → End × Tasks
  unfolding start_server
  start_redirector_server = start_server redirector_port

  unfoldable pub start_qos_server : Tasks → End × Tasks
  unfolding start_server
  start_qos_server = start_server qos_port
