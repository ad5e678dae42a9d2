-- ===== src/Tasks/History.antt =====
-- The task collection over a history of calls, one after another.
use pocket_relay_client_shar.Prelude.{
  ℕ, ◌≡◌, refl, sym, ap, ◌∙◌, not, List, [], ◌∷◌, ◌++◌, append-nil, append_assoc,
}
use pocket_relay_client_shar.Tasks.{
  Tasks, initial, is_empty, has_server_tasks, spawn_server_task, abort_each, stop_server_tasks,
}

-- A call, or a task that ends by itself, which the collection does not see.
pub data Event : Type 0 where
  spawn : ℕ → Event
  stop : Event
  finish : ℕ → Event

abbrev pub step : Tasks → Event → Tasks
step s (spawn h) = spawn_server_task h s
step s stop = stop_server_tasks s
step s (finish h) = s

abbrev pub run : Tasks → List Event → Tasks
run s [] = s
run s (e ∷ es) = run (step s e) es

-- The handles of the tasks that were spawned, and those spawned since the last stop.
abbrev pub spawned : List Event → List ℕ
spawned [] = []
spawned (spawn h ∷ es) = h ∷ spawned es
spawned (stop ∷ es) = spawned es
spawned (finish h ∷ es) = spawned es

abbrev pub open_tasks : List ℕ → List Event → List ℕ
open_tasks hs [] = hs
open_tasks hs (spawn h ∷ es) = open_tasks (hs ++ (h ∷ [])) es
open_tasks hs (stop ∷ es) = open_tasks [] es
open_tasks hs (finish h ∷ es) = open_tasks hs es

abort_each_lem :
    (hs : List ℕ) (s : Tasks) → abort_each hs s ≡ record s { aborted = s.aborted ++ hs }
abort_each_lem [] s = rw (append-nil s.aborted)
abort_each_lem (h ∷ hs) s =
    abort_each_lem hs _ ∙ ap (λ a. record s { aborted = a }) (append_assoc s.aborted (h ∷ []) hs)

pub stop_lem :
    (s : Tasks)
    → stop_server_tasks s ≡ record { collection = []; aborted = s.aborted ++ s.collection }
unfolding stop_server_tasks
stop_lem s = abort_each_lem s.collection _

run-collection : (es : List Event) (s : Tasks) → (run s es).collection ≡ open_tasks s.collection es
unfolding spawn_server_task
run-collection [] s = refl
run-collection (spawn h ∷ es) s = run-collection es _
run-collection (stop ∷ es) s = ap (λ t. (run t es).collection) (stop_lem s) ∙ run-collection es _
run-collection (finish h ∷ es) s = run-collection es s

run-all :
    (es : List Event) (s : Tasks)
    → (run s es).aborted ++ (run s es).collection ≡ (s.aborted ++ s.collection) ++ spawned es
unfolding spawn_server_task
run-all [] s = sym (append-nil (s.aborted ++ s.collection))
run-all (spawn h ∷ es) s =
    run-all es (spawn_server_task h s)
    ∙ ap (λ l. l ++ spawned es) (sym (append_assoc s.aborted s.collection (h ∷ [])))
    ∙ append_assoc (s.aborted ++ s.collection) (h ∷ []) (spawned es)
run-all (stop ∷ es) s =
    ap (λ t. (run t es).aborted ++ (run t es).collection) (stop_lem s)
    ∙ run-all es (record { collection = []; aborted = s.aborted ++ s.collection })
    ∙ ap (λ l. l ++ spawned es) (append-nil (s.aborted ++ s.collection))
run-all (finish h ∷ es) s = run-all es s

-- After any history of calls one after another, stopping the tasks has aborted every task ever spawned,
-- each once and in the order of spawning, and leaves no task.
pub stop_server_tasks-run :
    (es : List Event)
    → stop_server_tasks (run initial es) ≡ record { collection = []; aborted = spawned es }
stop_server_tasks-run es =
    stop_lem (run initial es)
    ∙ ap (λ a. record { collection = []; aborted = a }) (run-all es initial)

-- After any history, `has_server_tasks` says whether a task was spawned since the last stop; a task
-- that has ended since makes no difference.
pub has_server_tasks-run :
    (es : List Event) → has_server_tasks (run initial es) ≡ not (is_empty (open_tasks [] es))
unfolding has_server_tasks
has_server_tasks-run es = ap (λ c. not (is_empty c)) (run-collection es initial)
