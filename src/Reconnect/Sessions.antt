-- ===== src/Reconnect/Sessions.antt =====
-- The reconnect loop around attempts that take their time: an attempt spawns tasks, and may still be going
-- on, in a state of type `S`.
use native.Mathlib.Numerals.{add-one}
use pocket_relay_client_shar.Prelude.{
  ℕ, zero, suc, ◌+◌, ◌<◌, ◌≡◌, refl, sym, ap, ◌∙◌, subst, true, List, ltb, Bool-cases, inl, inr,
  if◌then◌else◌, arith, Outcome, ok, panic, ◌>>=◌,
}
use pocket_relay_client_shar.Tasks.{Tasks}
use pocket_relay_client_shar.Reconnect.{
  Result, max_error_attempts, unwrap_last, Service, running, failed, Loop, attempt, new_loop,
  reconnect_loop, reconnect,
}

pub data Attempt (E S : Type 0) : Type 0 where
  over : Result E (Unit {0}) → Tasks → Attempt E S
  going : S → Attempt E S

-- The loop is in an attempt, after these delays, or is between two or at its end.
pub data Served (E S : Type 0) : Type 0 where
  within : S → List ℕ → Served E S
  stands : Service E → Tasks → Served E S

module _ {E S : Type 0} where
  abbrev pub carry_on :
      (Result E (Unit {0}) → Tasks → Outcome (Served E S))
      → List ℕ
      → Attempt E S
      → Outcome (Served E S)
  carry_on rest delays (over result tasks) = rest result tasks
  carry_on rest delays (going s) = ok (within s delays)

  abbrev pub tasks_of : Tasks → Outcome (Attempt E S) → Tasks
  tasks_of before (ok (over result tasks)) = tasks
  tasks_of before _ = before

  -- An attempt that is over has this result.
  abbrev pub Agrees : Result E (Unit {0}) → Outcome (Attempt E S) → Type 0
  Agrees result panic = ⊥
  Agrees result (ok (over r tasks)) = result ≡ r
  Agrees result (ok (going s)) = Unit

-- Attempt number `n` on the tasks that are there.
module _ {E S : Type 0} (session : ℕ → Tasks → Outcome (Attempt E S)) where
  unfoldable pub serve_loop : ℕ → ℕ → Loop E → Tasks → Outcome (Served E S)
  unfolding attempt
  serve_loop zero n l tasks = ok (
      stands
        (if ltb l.attempt_errors max_error_attempts
          then running l.delays
          else failed (unwrap_last l.last_error) l.delays)
        tasks)
  serve_loop (suc fuel) n l tasks =
      let rest : Result E (Unit {0}) → Tasks → Outcome (Served E S) =
        λ result tasks. serve_loop fuel (n + 1) (attempt result l) tasks in
      if ltb l.attempt_errors max_error_attempts
      then session n tasks >>= carry_on rest l.delays
      else ok (stands (failed (unwrap_last l.last_error) l.delays) tasks)

  unfoldable pub serve : ℕ → Tasks → Outcome (Served E S)
  unfolding serve_loop
  serve fuel tasks = serve_loop fuel 0 new_loop tasks

  module _ (before : Tasks) where
    -- The tasks that attempt number `n` finds.
    abbrev pub tasks_at : ℕ → Tasks
    tasks_at zero = before
    tasks_at (suc n) = tasks_of (tasks_at n) (session n (tasks_at n))

    -- The loop stands where `service` does after as many attempts; or it is within an attempt, before
    -- which `service` runs with the same delays.
    abbrev pub Serves : (ℕ → Service E) → ℕ → Outcome (Served E S) → Type 0
    Serves service fuel panic = ⊥
    Serves service fuel (ok (stands now tasks)) = now ≡ service fuel
    Serves service fuel (ok (within s delays)) =
        (n : ℕ) × (n < fuel)
        × (session n (tasks_at n) ≡ ok (going s))
        × (service n ≡ running delays)

    module _ (create_tunnel : ℕ → Result E (Unit {0}))
        (agrees : (n : ℕ) → Agrees (create_tunnel n) (session n (tasks_at n))) where
      -- The abstract loop comes to these variables before attempt number `n`.
      Comes : ℕ → Loop E → Type 0
      Comes n l =
          (k : ℕ)
          → reconnect_loop create_tunnel (n + k) 0 new_loop ≡ reconnect_loop create_tunnel k n l

      Comes-attempt :
          (n : ℕ) (l : Loop E)
          → ltb l.attempt_errors 5 ≡ true
          → Comes n l
          → Comes (suc n) (attempt (create_tunnel n) l)
      unfolding Comes reconnect_loop
      Comes-attempt n l few c k =
          ap (λ m. reconnect_loop create_tunnel m 0 new_loop) (omega arith)
          ∙ c (suc k)
          ∙ rw (reconnect_loop, few, add-one n)

      Comes-running :
          (n : ℕ) (l : Loop E)
          → ltb l.attempt_errors 5 ≡ true
          → Comes n l
          → reconnect create_tunnel n ≡ running l.delays
      unfolding Comes reconnect reconnect_loop
      Comes-running n l few c =
          ap (λ m. reconnect_loop create_tunnel m 0 new_loop) (omega arith)
          ∙ c 0
          ∙ rw (reconnect_loop, few)

      carry_on-Serves :
          (fuel n : ℕ) (l : Loop E) (result : Outcome (Attempt E S))
          → ltb l.attempt_errors 5 ≡ true
          → Comes n l
          → session n (tasks_at n) ≡ result
          → Agrees (create_tunnel n) result
          → ((m : Loop E)
              → Comes (suc n) m
              → Serves
                  (reconnect create_tunnel)
                  (suc n + fuel)
                  (serve_loop fuel (suc n) m (tasks_at (suc n))))
          → Serves (reconnect create_tunnel) (n + suc fuel) (
              result >>= carry_on (λ r tasks. serve_loop fuel (suc n) (attempt r l) tasks) l.delays)
      carry_on-Serves fuel n l panic few c e a next = a
      carry_on-Serves fuel n l (ok (going s)) few c e a next =
          (n, omega arith, e, Comes-running n l few c)
      carry_on-Serves fuel n l (ok (over r tasks)) few c e a next =
          let found : tasks_at (suc n) ≡ tasks = ap (tasks_of (tasks_at n)) e in
          let comes : Comes (suc n) (attempt r l) =
            subst (λ q. Comes (suc n) (attempt q l)) a (Comes-attempt n l few c) in
          let later : Serves (reconnect create_tunnel) (suc n + fuel)
              (serve_loop fuel (suc n) (attempt r l) tasks) =
            subst
              (λ t.
                Serves (reconnect create_tunnel) (suc n + fuel)
                  (serve_loop fuel (suc n) (attempt r l) t))
              found (next (attempt r l) comes) in
          subst
            (λ k. Serves (reconnect create_tunnel) k (serve_loop fuel (suc n) (attempt r l) tasks))
            (omega arith) later

      loop-Serves :
          (fuel n : ℕ) (l : Loop E)
          → Comes n l
          → Serves (reconnect create_tunnel) (n + fuel) (serve_loop fuel n l (tasks_at n))
      unfolding Comes reconnect reconnect_loop serve_loop
      loop-Serves zero n l c = sym (c 0)
      loop-Serves (suc fuel) n l c = elim (Bool-cases (ltb l.attempt_errors 5)) [
        | inl few ↦
            rw (serve_loop, few, add-one n)
              (carry_on-Serves fuel n l (session n (tasks_at n)) few c refl (agrees n)
                (loop-Serves fuel (suc n)))
        | inr many ↦ rw (serve_loop, many) (sym (c (suc fuel) ∙ rw (reconnect_loop, many)))
      ]

      -- Attempts that agree with the abstract ones are served as the abstract loop goes on.
      pub serve-Serves : (fuel : ℕ) → Serves (reconnect create_tunnel) fuel (serve fuel before)
      unfolding serve Comes
      serve-Serves fuel =
          let start : Comes 0 new_loop =
            λ k. ap (λ m. reconnect_loop create_tunnel m 0 new_loop) (omega arith) in
          subst (λ m. Serves (reconnect create_tunnel) m (serve fuel before)) (omega arith)
            (loop-Serves fuel 0 new_loop start)
