-- ===== src/Tunnel/Pool/Schedules.antt =====
-- Schedules in which every wait of the four calls ends well.
use pocket_relay_client_shar.Prelude.{
  ℕ, zero, suc, ◌+◌, ◌-◌, ◌≤◌, ◌<◌, ◌≡◌, ◌≢◌, refl, ◌∙◌, subst, Option-cases, inl, inr, none, some,
  List, [], ◌∷◌, map, All, get_elem?, set_elem, arith,
}
use pocket_relay_client_shar.Reconnect.{Result, ok}
use pocket_relay_client_shar.Tasks.{Tasks}
use pocket_relay_client_shar.Tunnel.Pool.{
  SocketHandle, Stage, binding, connecting, started, starts, Answer, failure, success, Event,
  advance, wake, all_started, Joined, joined, settle, try_join, allocate_pool,
}

abbrev pub Succeeds : Answer → Type 0
Succeeds (failure e) = ⊥
Succeeds (success task) = Unit

-- One at this place, none elsewhere.
abbrev pub one_at : ℕ → ℕ → ℕ
one_at zero zero = 1
one_at zero (suc i) = 0
one_at (suc place) zero = 0
one_at (suc place) (suc i) = one_at place i

-- How many events are at a place.
abbrev pub count : List Event → ℕ → ℕ
count [] i = 0
count (event ∷ events) i = one_at event.place i + count events i

-- How many waits a call still has.
abbrev waits : Stage → ℕ
waits (binding start) = 2
waits (connecting start) = 1
waits (started handle) = 0

abbrev Enough : (ℕ → ℕ) → List Stage → Type 0
Enough f [] = Unit
Enough f (stage ∷ stages) = (waits stage ≤ f 0) × Enough (λ i. f (suc i)) stages

Enough-mono :
    (f g : ℕ → ℕ) (stages : List Stage) → ((i : ℕ) → f i ≤ g i) → Enough f stages → Enough g stages
Enough-mono f g [] le h = tt
Enough-mono f g (stage ∷ stages) le (a, h) =
    (omega (arith, a, le 0), Enough-mono _ _ stages (λ i. le (suc i)) h)

Enough-out :
    (f g : ℕ → ℕ) (place : ℕ) (stages : List Stage)
    → ((i : ℕ) → f i ≤ one_at place i + g i)
    → get_elem? stages place ≡ none
    → Enough f stages
    → Enough g stages
Enough-out f g place [] le out h = tt
Enough-out f g zero (stage ∷ stages) le out h = absurd (cc out)
Enough-out f g (suc place) (stage ∷ stages) le out (a, h) =
    (omega (arith, a, le 0), Enough-out _ _ place stages (λ i. le (suc i)) out h)

Enough-set :
    (f g : ℕ → ℕ) (place : ℕ) (stages : List Stage) (old next : Stage)
    → ((i : ℕ) → f i ≤ one_at place i + g i)
    → get_elem? stages place ≡ some old
    → waits next ≤ waits old - 1
    → Enough f stages
    → Enough g (set_elem stages place next)
Enough-set f g place [] old next le found fewer h = tt
Enough-set f g zero (stage ∷ stages) old next le found fewer (a, h) =
    let e : stage ≡ old = cc found in
    (
      omega (arith, fewer, le 0, subst (λ s. waits s ≤ f 0) e a),
      Enough-mono _ _ stages (λ i. omega (arith, le (suc i))) h,
    )
Enough-set f g (suc place) (stage ∷ stages) old next le found fewer (a, h) =
    (omega (arith, a, le 0), Enough-set _ _ place stages old next (λ i. le (suc i)) found fewer h)

-- A wait that ends well brings the call further.
abbrev Advances : Stage → Result ℕ (Stage × Tasks) → Type 0
Advances stage result =
    (next : Stage) × (after : Tasks) × (result ≡ ok (next, after)) × (waits next ≤ waits stage - 1)

advance-Advances :
    (stage : Stage) (answer : Answer) (tasks : Tasks)
    → Succeeds answer
    → Advances stage (advance stage answer tasks)
unfolding advance
advance-Advances (binding start) (success task) tasks h = (_, _, refl, omega arith)
advance-Advances (connecting start) (success task) tasks h = (_, _, refl, omega arith)
advance-Advances (started handle) (success task) tasks h = (_, _, refl, omega arith)
advance-Advances stage (failure e) tasks h = absurd h

abbrev Wakes : (ℕ → ℕ) → Result ℕ (List Stage × Tasks) → Type 0
Wakes g result = (next : List Stage) × (after : Tasks) × (result ≡ ok (next, after)) × Enough g next

wake-Wakes :
    (event : Event) (f g : ℕ → ℕ) (stages : List Stage) (tasks : Tasks)
    → Succeeds event.answer
    → ((i : ℕ) → f i ≤ one_at event.place i + g i)
    → Enough f stages
    → Wakes g (wake event stages tasks)
unfolding wake
wake-Wakes event f g stages tasks s le h = elim (Option-cases (get_elem? stages event.place)) [
  | inl out ↦ (stages, tasks, rw (wake, out), Enough-out f g event.place stages le out h)
  | inr (stage, found) ↦
      let (next, after, e, fewer) = advance-Advances stage event.answer tasks s in
      (
        set_elem stages event.place next,
        after,
        rw (wake, found, e),
        Enough-set f g event.place stages stage next le found fewer h,
      )
]

Enough-none : (stages : List Stage) → Enough (λ i. 0) stages → all_started stages ≢ none
unfolding all_started
Enough-none [] h e = absurd (cc e)
Enough-none (binding start ∷ stages) (a, h) e = absurd (omega (arith, a))
Enough-none (connecting start ∷ stages) (a, h) e = absurd (omega (arith, a))
Enough-none (started handle ∷ stages) (a, h) e = elim (Option-cases (all_started stages)) [
  | inl n ↦ Enough-none stages h n
  | inr (pool, n) ↦
      let q : all_started (started handle ∷ stages) ≡ some (handle ∷ pool) = rw n in cc (e, q)
]

-- `try_join!` gives the handles.
abbrev pub Completes : Joined → Type 0
Completes result = (pool : List SocketHandle) × (tasks : Tasks) × (result ≡ joined pool tasks)

try_join-Completes :
    (events : List Event) (stages : List Stage) (tasks : Tasks)
    → All (λ e. Succeeds e.answer) events
    → all_started stages ≡ none
    → Enough (count events) stages
    → Completes (try_join events stages tasks)
unfolding try_join settle
try_join-Completes [] stages tasks s n h = absurd (Enough-none stages h n)
try_join-Completes (event ∷ events) stages tasks (s, ss) n h =
    let (next, after, e, enough) =
      wake-Wakes event (count (event ∷ events)) (count events) stages tasks s (λ i. omega arith)
        h in
    let q : try_join (event ∷ events) stages tasks
        ≡ settle (try_join events) tasks (ok (next, after)) =
      rw (try_join, e) in
    elim (Option-cases (all_started next)) [
      | inl n ↦
          let (pool, final, r) = try_join-Completes events next after ss n enough in
          let q2 : settle (try_join events) tasks (ok (next, after)) ≡ try_join events next after =
            rw (settle, n) in
          (pool, final, q ∙ q2 ∙ r)
      | inr (pool, n) ↦
          let q2 : settle (try_join events) tasks (ok (next, after)) ≡ joined pool after =
            rw (settle, n) in
          (pool, after, q ∙ q2)
    ]

-- If each of the four calls gets its bind and its connect, all of them without an error, then the
-- four handles are given, in whatever order the eight waits end.
pub allocate_pool-Completes :
    (events : List Event) (before : Tasks)
    → All (λ e. Succeeds e.answer) events
    → ((i : ℕ) → i < 4 → 2 ≤ count events i)
    → Completes (allocate_pool events before)
unfolding allocate_pool all_started
allocate_pool-Completes events before no_errors enough =
    try_join-Completes events (map binding starts) before no_errors refl (
      enough 0 (omega arith),
      (enough 1 (omega arith), (enough 2 (omega arith), (enough 3 (omega arith), tt))),
    )
