-- ===== src/Tunnel/Pool/Joins.antt =====
-- What `try_join!` gives for whatever schedule, and what it leaves in the task collection.
use mathlib.Core.List.{Perm, perm_append_singleton}
use mathlib.Core.List.Perm
use pocket_relay_client_shar.Prelude.{
  ℕ, ◌≤◌, ◌<◌, ◌≡◌, refl, sym, ap, ◌∙◌, subst, Option, Option-cases, inl, inr, none, some, List, [],
  ◌∷◌, ◌++◌, append-nil, append_assoc, map, length, length-append, length-map, get_elem?, set_elem,
  arith,
}
use pocket_relay_client_shar.Reconnect.{Result, ok, err, ◌>>=◌}
use pocket_relay_client_shar.Tasks.{Tasks, spawn_server_task}
use pocket_relay_client_shar.Tunnel.Pool.{
  SocketHandle, Stage, binding, connecting, started, starts, Answer, failure, success, Event,
  advance, wake, push, all_started, Joined, joined, broken, pending, settle, try_join,
  allocate_pool,
}
use pocket_relay_client_shar.Tunnel.Pool.Stages.{
  start_of, live, set-starts, set_same, live-set_connecting, live-set_started,
}

-- The tasks `new` were spawned since `before`, and no task was aborted.
pub record Spawned (before after : Tasks) (new : List ℕ) : Type 0 where
  pub collection_eq : after.collection ≡ before.collection ++ new
  pub aborted_eq : after.aborted ≡ before.aborted

-- The calls keep their arguments, and each socket that is started has its task.
pub record Inv (before : Tasks) (stages : List Stage) (tasks : Tasks) : Type 0 where
  pub starts_eq : map start_of stages ≡ starts
  pub new : List ℕ
  pub spawned : Spawned before tasks new
  pub perm : Perm (live stages) new
  pub count : length new ≡ length (live stages)

-- With the handles, in the order of the calls, as many tasks; with an error, fewer than four.
abbrev pub Joins : Tasks → Joined → Type 0
Joins before (joined pool tasks) =
    (map (λ h. h.start) pool ≡ starts)
    × (new : List ℕ) × Spawned before tasks new
    × Perm (map (λ h. h.task) pool) new
Joins before (broken e tasks) = (new : List ℕ) × Spawned before tasks new × (length new < 4)
Joins before (pending stages tasks) = Inv before stages tasks

-- A wait that is over keeps the invariant.
abbrev Steps : Tasks → Result ℕ (List Stage × Tasks) → Type 0
Steps before (err e) = Unit
Steps before (ok (stages, tasks)) = Inv before stages tasks

advance-Inv :
    (before : Tasks) (stages : List Stage) (tasks : Tasks) (i : ℕ) (stage : Stage) (answer : Answer)
    → Inv before stages tasks
    → get_elem? stages i ≡ some stage
    → Steps before
        (do (next, after) ← advance stage answer tasks; ok (set_elem stages i next, after))
unfolding advance spawn_server_task
advance-Inv before stages tasks i (started handle) answer inv found =
    subst (λ x. Inv before x tasks) (sym (set_same stages i (started handle) found)) inv
advance-Inv before stages tasks i (binding start) (failure e) inv found = tt
advance-Inv before stages tasks i (binding start) (success task) inv found =
    let same = live-set_connecting stages i start found in
    record {
      starts_eq = set-starts stages i (binding start) (connecting start) found refl ∙ inv.starts_eq;
      new = inv.new;
      spawned = inv.spawned;
      perm = subst (λ l. Perm l inv.new) (sym same) inv.perm;
      count = inv.count ∙ ap length (sym same);
    }
advance-Inv before stages tasks i (connecting start) (failure e) inv found = tt
advance-Inv before stages tasks i (connecting start) (success task) inv found =
    let (p, n) = live-set_started stages i start (record { start = start; task = task }) found in
    record {
      starts_eq = set-starts stages i (connecting start) _ found refl ∙ inv.starts_eq;
      new = inv.new ++ (task ∷ []);
      spawned = record {
        collection_eq =
            ap (λ l. l ++ (task ∷ [])) inv.spawned.collection_eq
            ∙ append_assoc before.collection inv.new (task ∷ []);
        aborted_eq = inv.spawned.aborted_eq;
      };
      perm =
          Perm.trans p
            (Perm.trans (Perm.cons task inv.perm) (Perm.symm (perm_append_singleton task inv.new)));
      count = omega (arith, length-append inv.new (task ∷ []), inv.count, n);
    }

wake-Inv :
    (before : Tasks) (event : Event) (stages : List Stage) (tasks : Tasks)
    → Inv before stages tasks
    → Steps before (wake event stages tasks)
unfolding wake
wake-Inv before event stages tasks inv = elim (Option-cases (get_elem? stages event.place)) [
  | inl h ↦
      let e : wake event stages tasks ≡ ok (stages, tasks) = rw (wake, h) in
      subst (Steps before) (sym e) inv
  | inr (stage, h) ↦
      let e : wake event stages tasks ≡ (do
        (next, after) ← advance stage event.answer tasks
        ok (set_elem stages event.place next, after)) =
        rw (wake, h) in
      subst (Steps before) (sym e)
        (advance-Inv before stages tasks event.place stage event.answer inv h)
]

-- All the calls are done exactly when as many tasks run as there are calls.
abbrev Handles : List Stage → Option (List SocketHandle) → Type 0
Handles stages (some pool) =
    (map (λ h. h.start) pool ≡ map start_of stages) × (map (λ h. h.task) pool ≡ live stages)
Handles stages none = length (live stages) < length stages

live_bound : (stages : List Stage) → length (live stages) ≤ length stages
live_bound [] = omega arith
live_bound (binding s ∷ stages) = omega (arith, live_bound stages)
live_bound (connecting s ∷ stages) = omega (arith, live_bound stages)
live_bound (started h ∷ stages) = omega (arith, live_bound stages)

push-Handles :
    (handle : SocketHandle) (stages : List Stage) (pool : Option (List SocketHandle))
    → Handles stages pool
    → Handles (started handle ∷ stages) (push handle pool)
push-Handles handle stages none h = omega (arith, h)
push-Handles handle stages (some pool) (a, b) = (ap (◌∷◌ handle.start) a, ap (◌∷◌ handle.task) b)

all_started-Handles : (stages : List Stage) → Handles stages (all_started stages)
unfolding all_started
all_started-Handles [] = (refl, refl)
all_started-Handles (binding s ∷ stages) = omega (arith, live_bound stages)
all_started-Handles (connecting s ∷ stages) = omega (arith, live_bound stages)
all_started-Handles (started h ∷ stages) =
    push-Handles h stages (all_started stages) (all_started-Handles stages)

joined-Joins :
    (before : Tasks) (stages : List Stage) (tasks : Tasks) (pool : List SocketHandle)
    → Inv before stages tasks
    → Handles stages (some pool)
    → Joins before (joined pool tasks)
joined-Joins before stages tasks pool inv (a, b) =
    (a ∙ inv.starts_eq, inv.new, inv.spawned, subst (λ l. Perm l inv.new) (sym b) inv.perm)

four : (stages : List Stage) → map start_of stages ≡ starts → length stages ≡ 4
four stages h = sym (length-map stages start_of) ∙ ap length h

settle-Joins :
    (rest : List Stage → Tasks → Joined) (before : Tasks) (stages : List Stage) (tasks : Tasks)
    (result : Result ℕ (List Stage × Tasks))
    → Inv before stages tasks
    → (length (live stages) < 4)
    → Steps before result
    → ((next : List Stage) (after : Tasks)
        → Inv before next after
        → length (live next) < 4
        → Joins before (rest next after))
    → Joins before (settle rest tasks result)
unfolding settle
settle-Joins rest before stages tasks (err e) inv few h cont =
    (inv.new, inv.spawned, omega (arith, inv.count, few))
settle-Joins rest before stages tasks (ok (next, after)) inv few h cont =
    go (all_started next) (all_started-Handles next)
  where
    go :
        (pool : Option (List SocketHandle))
        → Handles next pool
        → Joins before (elim pool [ some pool ↦ joined pool after | none ↦ rest next after ])
    go (some pool) w = joined-Joins before next after pool h w
    go none w = cont next after h (omega (arith, w, four next h.starts_eq))

try_join-Joins :
    (events : List Event) (before : Tasks) (stages : List Stage) (tasks : Tasks)
    → Inv before stages tasks
    → length (live stages) < 4
    → Joins before (try_join events stages tasks)
unfolding try_join
try_join-Joins [] before stages tasks inv few = inv
try_join-Joins (event ∷ events) before stages tasks inv few =
    settle-Joins (try_join events) before stages tasks (wake event stages tasks) inv few
      (wake-Inv before event stages tasks inv) (try_join-Joins events before)

-- In whatever order the binds and the connects of the four sockets end, and whichever of them fails:
-- the handles are those of the four calls in their order, and the tasks spawned since are theirs,
-- each once; or with the first error fewer than four tasks were spawned, which are neither aborted nor
-- taken out of the collection; or some wait is not over, and the sockets that are started run.
pub allocate_pool-Joins :
    (events : List Event) (before : Tasks) → Joins before (allocate_pool events before)
unfolding allocate_pool
allocate_pool-Joins events before =
    try_join-Joins events before (map binding starts) before
      (record {
        starts_eq = refl;
        new = [];
        spawned = record { collection_eq = sym (append-nil before.collection); aborted_eq = refl };
        perm = Perm.refl [];
        count = refl;
      })
      (omega arith)
