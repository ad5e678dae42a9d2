-- ===== src/Listeners/Accepts.antt =====
-- What the accept loops leave in the task collection.
use pocket_relay_client_shar.Prelude.{
  ℕ, ◌≡◌, refl, sym, ap, ◌∙◌, ◌⊎◌, inl, inr, List, [], ◌∷◌, ◌++◌, map,
}
use pocket_relay_client_shar.Reconnect.{Result, ok, err}
use pocket_relay_client_shar.Tasks.{Tasks, initial, spawn_server_task, stop_server_tasks}
use pocket_relay_client_shar.Tasks.History.{
  Event, spawn, stop, finish, run, spawned, stop_server_tasks-run,
}
use pocket_relay_client_shar.Listeners.{End, failed, waiting, accept_loop, start_server}

-- The connections before the first error, and how the loop ends.
abbrev pub accepted : List (Result ℕ ℕ) → List ℕ
accepted [] = []
accepted (err e ∷ accepts) = []
accepted (ok handle ∷ accepts) = handle ∷ accepted accepts

abbrev pub first_error : List (Result ℕ ℕ) → End
first_error [] = waiting
first_error (err e ∷ accepts) = failed e
first_error (ok handle ∷ accepts) = first_error accepts

run-append : (es fs : List Event) (s : Tasks) → run s (es ++ fs) ≡ run (run s es) fs
run-append [] fs s = refl
run-append (spawn h ∷ es) fs s = run-append es fs _
run-append (stop ∷ es) fs s = run-append es fs _
run-append (finish h ∷ es) fs s = run-append es fs s

spawned-append : (es : List Event) (hs : List ℕ) → spawned (es ++ map spawn hs) ≡ spawned es ++ hs
spawned-append [] [] = refl
spawned-append [] (h ∷ hs) = ap (◌∷◌ h) (spawned-append [] hs)
spawned-append (spawn h ∷ es) hs = ap (◌∷◌ h) (spawned-append es hs)
spawned-append (stop ∷ es) hs = spawned-append es hs
spawned-append (finish h ∷ es) hs = spawned-append es hs

accept_loop-run :
    (accepts : List (Result ℕ ℕ)) (s : Tasks)
    → accept_loop accepts s ≡ (first_error accepts, run s (map spawn (accepted accepts)))
unfolding accept_loop
accept_loop-run [] s = refl
accept_loop-run (err e ∷ accepts) s = refl
accept_loop-run (ok handle ∷ accepts) s = accept_loop-run accepts (spawn_server_task handle s)

module _ (bind : ℕ → Result ℕ (List (Result ℕ ℕ))) where
  -- How a server that binds the port after a history ends, and what a stop then has aborted.
  abbrev pub Serves : List Event → ℕ → End × Tasks → Type 0
  Serves es port served =
      ((e : ℕ) × (bind port ≡ err e) × (served ≡ (failed e, run initial es)))
      ⊎ ((accepts : List (Result ℕ ℕ)) × (bind port ≡ ok accepts)
          × (served.0 ≡ first_error accepts)
          × (stop_server_tasks served.1
              ≡ record { collection = []; aborted = spawned es ++ accepted accepts }))

  bound-Serves :
      (es : List Event) (port : ℕ) (r : Result ℕ (List (Result ℕ ℕ)))
      → bind port ≡ r
      → Serves es port (start_server bind port (run initial es))
  unfolding start_server
  bound-Serves es port (err e) q = inl (e, q, rw (start_server, q))
  bound-Serves es port (ok accepts) q =
      let later = map spawn (accepted accepts) in
      let whole : start_server bind port (run initial es)
          ≡ (first_error accepts, run (run initial es) later) =
        rw (start_server, q) (accept_loop-run accepts (run initial es)) in
      inr (
        accepts,
        q,
        ap (λ p. p.0) whole,
        ap (λ p. stop_server_tasks p.1) whole
            ∙ ap stop_server_tasks (sym (run-append es later initial))
            ∙ stop_server_tasks-run (es ++ later)
            ∙ ap (λ a. record { collection = []; aborted = a })
                (spawned-append es (accepted accepts)),
      )

  -- A server that is started after any history of the task collection fails with the error of its
  -- bind and changes nothing, or else fails with the first error of an accept or waits; in this case
  -- a stop of the tasks has aborted every task from before and, after these, the task of each
  -- connection that was accepted, in order, and leaves no task.
  pub start_server-Serves :
      (es : List Event) (port : ℕ) → Serves es port (start_server bind port (run initial es))
  start_server-Serves es port = bound-Serves es port (bind port) refl
