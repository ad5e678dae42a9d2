-- ===== src/Tasks/Calls/Ledger.antt =====
-- Where each task is, however the calls of `spawn_server_task` and `stop_server_tasks` interleave.
use pocket_relay_client_shar.Prelude.{
  ℕ, ◌+◌, ◌≡◌, refl, ap, ◌∙◌, inl, inr, Option-cases, some, List, [], ◌∷◌, ◌++◌, ◌==◌,
  if◌then◌else◌, get_elem?, total, total-set_elem, All, arith,
}
use pocket_relay_client_shar.Tasks.{add_server_task, stop_server_tasks}
use pocket_relay_client_shar.Tasks.History.{stop_lem}
use pocket_relay_client_shar.Tasks.Calls.{
  Call, spawning, adding, stopping, aborting, returned, World, proceed, step, run, start,
}

-- How often a handle is in a list.
abbrev pub count : ℕ → List ℕ → ℕ
count h hs = total (λ x. if x == h then 1 else 0) hs

count-append : (h : ℕ) (xs ys : List ℕ) → count h (xs ++ ys) ≡ count h xs + count h ys
count-append h [] ys = omega arith
count-append h (x ∷ xs) ys = omega (arith, count-append h xs ys)

-- The handles that the calls will give to their tasks.
abbrev pub to_spawn : List Call → List ℕ
to_spawn [] = []
to_spawn (spawning h ∷ calls) = h ∷ to_spawn calls
to_spawn (_ ∷ calls) = to_spawn calls

-- The handles that a call has yet to push, and those that it has taken and has yet to abort.
abbrev pub to_push : Call → List ℕ
to_push (spawning h) = h ∷ []
to_push (adding h) = h ∷ []
to_push _ = []

abbrev pub to_abort : Call → List ℕ
to_abort (aborting values) = values
to_abort _ = []

abbrev pub IsFresh : Call → Type 0
IsFresh (spawning h) = Unit
IsFresh stopping = Unit
IsFresh _ = ⊥

abbrev pub pushes : ℕ → World → ℕ
pushes h w = total (λ c. count h (to_push c)) w.calls

abbrev pub aborts : ℕ → World → ℕ
aborts h w = total (λ c. count h (to_abort c)) w.calls

abbrev sum : ℕ → World → ℕ
sum h w = (count h w.tasks.aborted + count h w.tasks.collection) + (pushes h w + aborts h w)

-- A turn moves a handle from one place to the next.
proceed-sum :
    (h i : ℕ) (w : World) (c : Call)
    → get_elem? w.calls i ≡ some c
    → sum h (proceed i w c) ≡ sum h w
unfolding add_server_task
proceed-sum h i w (spawning x) e = omega (
  arith,
  total-set_elem (λ c. count h (to_push c)) w.calls i (spawning x) (adding x) e,
  total-set_elem (λ c. count h (to_abort c)) w.calls i (spawning x) (adding x) e,
)
proceed-sum h i w (adding x) e = omega (
  arith,
  count-append h w.tasks.collection (x ∷ []),
  total-set_elem (λ c. count h (to_push c)) w.calls i (adding x) returned e,
  total-set_elem (λ c. count h (to_abort c)) w.calls i (adding x) returned e,
)
proceed-sum h i w stopping e =
    let all = w.tasks.collection in
    omega (
      arith,
      total-set_elem (λ c. count h (to_push c)) w.calls i stopping (aborting all) e,
      total-set_elem (λ c. count h (to_abort c)) w.calls i stopping (aborting all) e,
    )
proceed-sum h i w (aborting []) e = omega (
  arith,
  total-set_elem (λ c. count h (to_push c)) w.calls i (aborting []) returned e,
  total-set_elem (λ c. count h (to_abort c)) w.calls i (aborting []) returned e,
)
proceed-sum h i w (aborting (x ∷ xs)) e = omega (
  arith,
  count-append h w.tasks.aborted (x ∷ []),
  total-set_elem (λ c. count h (to_push c)) w.calls i (aborting (x ∷ xs)) (aborting xs) e,
  total-set_elem (λ c. count h (to_abort c)) w.calls i (aborting (x ∷ xs)) (aborting xs) e,
)
proceed-sum h i w returned e = refl

step-sum : (h i : ℕ) (w : World) → sum h (step i w) ≡ sum h w
unfolding step
step-sum h i w = elim (Option-cases (get_elem? w.calls i)) [
  | inl absent ↦ let e : step i w ≡ w = rw (step, absent) in ap (sum h) e
  | inr (c, present) ↦
      let e : step i w ≡ proceed i w c = rw (step, present) in
      ap (sum h) e ∙ proceed-sum h i w c present
]

run-sum : (h : ℕ) (turns : List ℕ) (w : World) → sum h (run turns w) ≡ sum h w
unfolding run
run-sum h [] w = refl
run-sum h (i ∷ turns) w = run-sum h turns (step i w) ∙ step-sum h i w

start-sum :
    (h : ℕ) (calls : List Call) → All IsFresh calls → sum h (start calls) ≡ count h (to_spawn calls)
start-sum h [] f = refl
start-sum h (spawning x ∷ calls) f = omega (arith, start-sum h calls f.1)
start-sum h (stopping ∷ calls) f = omega (arith, start-sum h calls f.1)
start-sum h (adding x ∷ calls) f = absurd f.0
start-sum h (aborting xs ∷ calls) f = absurd f.0
start-sum h (returned ∷ calls) f = absurd f.0

-- Calls that spawn a task and calls that stop the tasks run at the same time, and their steps interleave
-- in whatever way. When one more call of `stop_server_tasks` runs by itself at any time, the collection
-- is empty behind it, and each handle has been aborted as often as the calls were to spawn a task with
-- it, but for those that the calls under way have yet to push, which this stop misses although their
-- tasks may run already, and those that another stop has taken and has yet to abort.
pub run-stop_server_tasks :
    (calls : List Call) (turns : List ℕ)
    → All IsFresh calls
    → let w = run turns (start calls) in
      let after = stop_server_tasks w.tasks in
      (after.collection ≡ [])
      × ((h : ℕ) → count h (to_spawn calls) ≡ count h after.aborted + (pushes h w + aborts h w))
run-stop_server_tasks calls turns f =
    let w = run turns (start calls) in
    let whole = stop_lem w.tasks in
    (
      ap (λ s. s.collection) whole,
      λ h. omega (
        arith,
        run-sum h turns (start calls),
        start-sum h calls f,
        count-append h w.tasks.aborted w.tasks.collection,
        ap (λ s. count h s.aborted) whole,
      ),
    )
