-- ===== src/Reconnect.antt =====
-- The reconnect loop that src/servers/tunnel.rs and src/servers/udp_tunnel.rs share: a tunnel is made
-- again and again until five attempts in a row have failed. How the attempts end is given by their
-- number; delays are milliseconds.
pub mod Limit
pub mod Sessions
use pocket_relay_client_shar.Prelude.{
  ◌≡◌, refl, ℕ, zero, suc, ◌+◌, ◌*◌, Option, none, some, List, [], ◌∷◌, ◌++◌, ltb, if◌then◌else◌,
}

pub data Result (E A : Type 0) : Type 0 where
  ok : A → Result E A
  err : E → Result E A

infixl 5 ◌>>=◌
abbrev pub ◌>>=◌ : {E A B : Type 0} → Result E A → (A → Result E B) → Result E B
ok a >>= f = f a
err e >>= f = err e

pub >>=-eq-ok :
    {E A B : Type 0} (m : Result E A) (f : A → Result E B) {b : B}
    → (m >>= f) ≡ ok b
    → (a : A) × (m ≡ ok a) × (f a ≡ ok b)
>>=-eq-ok (ok a) f e = (a, refl, e)
>>=-eq-ok (err c) f e = cc e

abbrev pub max_error_attempts : ℕ
max_error_attempts = 5

-- The error that the loop ends with: the last one, or "Reached error connect limit".
pub data ConnectError (E : Type 0) : Type 0 where
  last : E → ConnectError E
  limit_reached : ConnectError E

abbrev pub unwrap_last : {E : Type 0} → Option E → ConnectError E
unwrap_last none = limit_reached
unwrap_last (some e) = last e

-- The service still runs after the attempts that the fuel allows, or it has failed; with the delays
-- that it has waited. `done` is the early return of `Ok`.
pub data Service (E : Type 0) : Type 0 where
  running : List ℕ → Service E
  failed : ConnectError E → List ℕ → Service E
  done : Service E

-- The variables of the loop after an attempt.
pub record Loop (E : Type 0) : Type 0 where
  pub last_error : Option E
  pub attempt_errors : ℕ
  pub delays : List ℕ

-- The body of the loop, by the result of its attempt.
unfoldable pub attempt : {E : Type 0} → Result E (Unit {0}) → Loop E → Loop E
attempt result l = elim result [
  | err e ↦
      let errors = l.attempt_errors + 1 in
      record {
        last_error = some e;
        attempt_errors = errors;
        delays = l.delays ++ ((1000 * errors) ∷ []);
      }
  | ok _ ↦ record l { attempt_errors = 0; delays = l.delays ++ (1000 ∷ []) }
]

abbrev pub new_loop : {E : Type 0} → Loop E
new_loop = record { last_error = none; attempt_errors = 0; delays = [] }

module _ {E : Type 0} (create_tunnel : ℕ → Result E (Unit {0})) where
  unfoldable pub reconnect_loop : ℕ → ℕ → Loop E → Service E
  unfolding attempt
  reconnect_loop zero n l =
      if ltb l.attempt_errors max_error_attempts
      then running l.delays
      else failed (unwrap_last l.last_error) l.delays
  reconnect_loop (suc fuel) n l =
      let rest = reconnect_loop fuel (n + 1) (attempt (create_tunnel n) l) in
      if ltb l.attempt_errors max_error_attempts
      then rest
      else failed (unwrap_last l.last_error) l.delays

  unfoldable pub reconnect : ℕ → Service E
  unfolding reconnect_loop
  reconnect fuel = reconnect_loop fuel 0 new_loop
