-- ===== src/Reconnect/Limit.antt =====
-- When the reconnect loop gives up.
use native.Mathlib.Numerals.{add-one}
use pocket_relay_client_shar.Prelude.{
  ℕ, zero, suc, ◌+◌, ◌≤◌, ◌<◌, ◌≡◌, refl, subst, false, sym, ap, some, ltb, ltb→lt, ltb→le,
  Bool-cases, inl, inr, ◌⊎◌, arith,
}
use pocket_relay_client_shar.Reconnect.{
  Result, ok, err, last, limit_reached, unwrap_last, Service, running, failed, done, Loop, attempt,
  reconnect_loop, reconnect,
}

module _ {E : Type 0} (create_tunnel : ℕ → Result E (Unit {0})) where
  -- How many attempts in a row have failed when `n` attempts were made.
  abbrev pub streak : ℕ → ℕ
  streak zero = 0
  streak (suc n) = elim (create_tunnel n) [ ok _ ↦ 0 | err _ ↦ streak n + 1 ]

  -- The service fails after the fifth of five failures in a row, with the error of that attempt, and
  -- runs as long as there were no five.
  abbrev pub GivesUp : ℕ → Service E → Type 0
  GivesUp fuel done = ⊥
  GivesUp fuel (running delays) = (n : ℕ) → n ≤ fuel → streak n < 5
  GivesUp fuel (failed limit_reached delays) = ⊥
  GivesUp fuel (failed (last e) delays) =
      (n : ℕ) × (n < fuel)
      × (create_tunnel n ≡ err e)
      × (streak (suc n) ≡ 5)
      × ((m : ℕ) → m ≤ n → streak m < 5)

  -- The loop's variables after `n` attempts none of which was the fifth failure in a row.
  record At (n : ℕ) (l : Loop E) : Type 0 where
    errors_eq : l.attempt_errors ≡ streak n
    below : (m : ℕ) → m < n → streak m < 5
    last_eq :
        (l.attempt_errors ≡ 0)
        ⊎ ((k : ℕ) × (e : E) × (n ≡ suc k) × (create_tunnel k ≡ err e) × (l.last_error ≡ some e))

  Result-cases : (r : Result E (Unit {0})) → (r ≡ ok tt) ⊎ ((e : E) × (r ≡ err e))
  Result-cases (ok tt) = inl refl
  Result-cases (err e) = inr (e, refl)

  below_suc :
      (n : ℕ) → ((m : ℕ) → m < n → streak m < 5) → streak n < 5 → (m : ℕ) → m < suc n → streak m < 5
  below_suc n b h m lt = elim (Bool-cases (ltb m n)) [
    | inl e ↦ b m (ltb→lt m n e)
    | inr e ↦
        let same : m ≡ n = omega (arith, ltb→le m n e) in subst (λ k. streak k < 5) (sym same) h
  ]

  attempt-At :
      (n : ℕ) (l : Loop E) → At n l → streak n < 5 → At (suc n) (attempt (create_tunnel n) l)
  unfolding attempt
  attempt-At n l v h = elim (Result-cases (create_tunnel n)) [
    | inl e ↦
        rw (attempt, e)
          (record { errors_eq = rw (streak, e); below = below_suc n v.below h; last_eq = inl refl })
    | inr (c, e) ↦
        rw (attempt, e)
          (record {
            errors_eq = rw (streak, e) (ap (λ k. k + 1) v.errors_eq);
            below = below_suc n v.below h;
            last_eq = inr (n, c, refl, e, refl);
          })
  ]

  five :
      (n k : ℕ) (c : E)
      → n ≡ suc k
      → create_tunnel k ≡ err c
      → 5 ≤ streak n
      → ((m : ℕ) → m < n → streak m < 5)
      → streak (suc k) ≡ 5
  five n k c e failed_at h b =
      let now : 5 ≤ streak (suc k) = subst (λ j. 5 ≤ streak j) e h in
      let step : streak (suc k) ≡ streak k + 1 = rw (streak, failed_at) in
      omega (arith, b k (omega arith), step, now)

  gave_up :
      (total n : ℕ) (l : Loop E)
      → At n l
      → n ≤ total
      → ltb l.attempt_errors 5 ≡ false
      → GivesUp total (failed (unwrap_last l.last_error) l.delays)
  gave_up total n l v le h = elim v.last_eq [
    | inl none_yet ↦ absurd (omega (arith, ltb→le l.attempt_errors 5 h))
    | inr (k, c, e, failed_at, kept) ↦
        let many : 5 ≤ streak n = omega (arith, ltb→le l.attempt_errors 5 h, v.errors_eq) in
        rw kept (
          k,
          omega arith,
          failed_at,
          five n k c e failed_at many v.below,
          λ m lt. v.below m (omega arith),
        )
  ]

  loop-GivesUp :
      (fuel n total : ℕ) (l : Loop E)
      → At n l
      → n + fuel ≡ total
      → GivesUp total (reconnect_loop create_tunnel fuel n l)
  unfolding reconnect_loop
  loop-GivesUp zero n total l v sum = elim (Bool-cases (ltb l.attempt_errors 5)) [
    | inl few ↦
        rw (reconnect_loop, few)
          (λ m le.
            below_suc n v.below (omega (arith, ltb→lt l.attempt_errors 5 few, v.errors_eq)) m
              (omega arith))
    | inr many ↦ rw (reconnect_loop, many) (gave_up total n l v (omega arith) many)
  ]
  loop-GivesUp (suc fuel) n total l v sum = elim (Bool-cases (ltb l.attempt_errors 5)) [
    | inl few ↦
        let h : streak n < 5 = omega (arith, ltb→lt l.attempt_errors 5 few, v.errors_eq) in
        rw (reconnect_loop, few, add-one n)
          (loop-GivesUp fuel (suc n) total (attempt (create_tunnel n) l) (attempt-At n l v h)
            (omega arith))
    | inr many ↦ rw (reconnect_loop, many) (gave_up total n l v (omega arith) many)
  ]

  -- The loop gives up exactly when five attempts in a row have failed, with the error of the fifth;
  -- a success in between starts the count again, and the loop has no other end.
  pub reconnect-GivesUp : (fuel : ℕ) → GivesUp fuel (reconnect create_tunnel fuel)
  unfolding reconnect
  reconnect-GivesUp fuel =
      loop-GivesUp fuel 0 fuel _
        (record { errors_eq = refl; below = λ m lt. absurd (omega arith); last_eq = inl refl })
        (omega arith)
