-- ===== src/Tasks/Calls/Alone.antt =====
-- A call that no other interrupts does in its steps what `Tasks` gives as one step.
use pocket_relay_client_shar.Prelude.{
  ℕ, zero, suc, ◌≡◌, refl, ap, ◌∙◌, some, List, [], ◌∷◌, get_elem?, set_elem, length,
}
use pocket_relay_client_shar.Tasks.{
  Tasks, add_server_task, spawn_server_task, abort_each, stop_server_tasks,
}
use pocket_relay_client_shar.Tasks.Calls.{
  Call, spawning, adding, stopping, aborting, returned, World, abort, go_to, proceed, step, run,
}

abbrev again : ℕ → ℕ → List ℕ
again zero i = []
again (suc n) i = i ∷ again n i

get_elem?-set_elem :
    (calls : List Call) (i : ℕ) (old new : Call)
    → get_elem? calls i ≡ some old
    → get_elem? (set_elem calls i new) i ≡ some new
get_elem?-set_elem [] i old new e = absurd (cc e)
get_elem?-set_elem (c ∷ calls) zero old new e = refl
get_elem?-set_elem (c ∷ calls) (suc i) old new e = get_elem?-set_elem calls i old new e

set_elem-set_elem :
    (calls : List Call) (i : ℕ) (a b : Call)
    → set_elem (set_elem calls i a) i b ≡ set_elem calls i b
set_elem-set_elem [] i a b = refl
set_elem-set_elem (c ∷ calls) zero a b = refl
set_elem-set_elem (c ∷ calls) (suc i) a b = ap (◌∷◌ c) (set_elem-set_elem calls i a b)

step-proceed :
    (i : ℕ) (w : World) (c : Call) → get_elem? w.calls i ≡ some c → step i w ≡ proceed i w c
unfolding step
step-proceed i w c e = rw (step, e)

-- The steps of a call from `c` on, of which the first leaves it at `d` with these tasks.
then_steps :
    (n i : ℕ) (w : World) (c d : Call) (tasks after : Tasks)
    → get_elem? w.calls i ≡ some c
    → proceed i w c ≡ go_to i d (record w { tasks = tasks })
    → ((v : World)
        → v.tasks ≡ tasks
        → get_elem? v.calls i ≡ some d
        → run (again n i) v ≡ record { tasks = after; calls = set_elem v.calls i returned })
    → run (again (suc n) i) w ≡ record { tasks = after; calls = set_elem w.calls i returned }
unfolding run
then_steps n i w c d tasks after present e rest =
    ap (run (again n i)) (step-proceed i w c present ∙ e)
    ∙ rest (go_to i d (record w { tasks = tasks })) refl (get_elem?-set_elem w.calls i c d present)
    ∙ ap (λ l. record { tasks = after; calls = l }) (set_elem-set_elem w.calls i d returned)

last_step :
    (i : ℕ) (w : World) (c : Call) (after : Tasks)
    → get_elem? w.calls i ≡ some c
    → proceed i w c ≡ go_to i returned (record w { tasks = after })
    → run (again 1 i) w ≡ record { tasks = after; calls = set_elem w.calls i returned }
unfolding run
last_step i w c after present e = step-proceed i w c present ∙ e

aborts_run :
    (i : ℕ) (values : List ℕ) (w : World)
    → get_elem? w.calls i ≡ some (aborting values)
    → run (again (suc (length values)) i) w
      ≡ record { tasks = abort_each values w.tasks; calls = set_elem w.calls i returned }
aborts_run i [] w present = last_step i w (aborting []) w.tasks present refl
aborts_run i (h ∷ values) w present =
    then_steps (suc (length values)) i w (aborting (h ∷ values)) (aborting values) (abort h w.tasks)
      (abort_each (h ∷ values) w.tasks) present refl
      (λ v e there.
        aborts_run i values v there
        ∙ ap (λ s. record { tasks = abort_each values s; calls = set_elem v.calls i returned }) e)

-- A call of `stop_server_tasks` by itself.
stop_alone :
    (i : ℕ) (w : World)
    → get_elem? w.calls i ≡ some stopping
    → run (again (suc (suc (length w.tasks.collection))) i) w
      ≡ record { tasks = stop_server_tasks w.tasks; calls = set_elem w.calls i returned }
unfolding stop_server_tasks
stop_alone i w present =
    let all = w.tasks.collection in
    let taken = record w.tasks { collection = [] } in
    then_steps (suc (length all)) i w stopping (aborting all) taken (abort_each all taken) present
      refl
      (λ v e there.
        aborts_run i all v there
        ∙ ap (λ s. record { tasks = abort_each all s; calls = set_elem v.calls i returned }) e)

-- A call of `spawn_server_task` by itself.
spawn_alone :
    (i h : ℕ) (w : World)
    → get_elem? w.calls i ≡ some (spawning h)
    → run (again 2 i) w
      ≡ record { tasks = spawn_server_task h w.tasks; calls = set_elem w.calls i returned }
unfolding spawn_server_task add_server_task
spawn_alone i h w present =
    then_steps 1 i w (spawning h) (adding h) w.tasks (spawn_server_task h w.tasks) present refl
      (λ v e there.
        last_step i v (adding h) (add_server_task h v.tasks) there refl
        ∙ ap (λ s. record { tasks = add_server_task h s; calls = set_elem v.calls i returned }) e)
