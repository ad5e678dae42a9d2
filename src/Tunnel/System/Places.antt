-- ===== src/Tunnel/System/Places.antt =====
-- Predicates of the elements of a list and their places.
use pocket_relay_client_shar.Prelude.{
  ℕ, zero, suc, ◌+◌, ◌<◌, ◌≡◌, ◌≢◌, subst, none, some, List, [], ◌∷◌, get_elem?, set_elem, arith,
}

-- A predicate of each element and its place, of which the first is given.
abbrev pub AllAt : {A : Type 0} → (ℕ → A → Type 0) → ℕ → List A → Type 0
AllAt P n [] = Unit
AllAt P n (x ∷ xs) = P n x × AllAt P (suc n) xs

AllAt-set_from :
    {A : Type 0} (P Q : ℕ → A → Type 0) (n k : ℕ) (xs : List A) (v : A)
    → ((j : ℕ) (x : A) → n + k ≢ j → P j x → Q j x)
    → Q (n + k) v
    → AllAt P n xs
    → AllAt Q n (set_elem xs k v)
AllAt-set_from P Q n k [] v f q h = tt
AllAt-set_from P Q n zero (x ∷ xs) v f q h =
    (subst (λ j. Q j v) (omega arith) q, AllAt-after (suc n) xs (omega arith) h.1)
  where
    AllAt-after : (m : ℕ) (ys : List _) → n < m → AllAt P m ys → AllAt Q m ys
    AllAt-after m [] lt h = tt
    AllAt-after m (y ∷ ys) lt h =
        (f m y (λ e. omega (arith, e)) h.0, AllAt-after (suc m) ys (omega arith) h.1)
AllAt-set_from P Q n (suc k) (x ∷ xs) v f q h = (
  f n x (λ e. omega (arith, e)) h.0,
  AllAt-set_from P Q (suc n) k xs v (λ j y ne. f j y (λ e. ne (omega (arith, e))))
      (subst (λ j. Q j v) (omega arith) q) h.1,
)

AllAt-get_from :
    {A : Type 0} (P : ℕ → A → Type 0) (n k : ℕ) (xs : List A) (x : A)
    → AllAt P n xs
    → get_elem? xs k ≡ some x
    → P (n + k) x
AllAt-get_from P n k [] x h e = absurd (cc e)
AllAt-get_from P n zero (y ∷ xs) x h e = subst (λ j. P j x) (omega arith) (subst (P n) (cc e) h.0)
AllAt-get_from P n (suc k) (y ∷ xs) x h e =
    subst (λ j. P j x) (omega arith) (AllAt-get_from P (suc n) k xs x h.1 e)

-- Replacing the element at `k`: the other places need a step from `P` to `Q`, and the new element `Q`.
pub AllAt-set_elem :
    {A : Type 0} (P Q : ℕ → A → Type 0) (k : ℕ) (xs : List A) (v : A)
    → ((j : ℕ) (x : A) → k ≢ j → P j x → Q j x)
    → Q k v
    → AllAt P 0 xs
    → AllAt Q 0 (set_elem xs k v)
AllAt-set_elem P Q k xs v f q h =
    AllAt-set_from P Q 0 k xs v (λ j x ne. f j x (λ e. ne (omega (arith, e))))
      (subst (λ j. Q j v) (omega arith) q) h

pub AllAt-get_elem? :
    {A : Type 0} (P : ℕ → A → Type 0) (k : ℕ) (xs : List A) (x : A)
    → AllAt P 0 xs
    → get_elem? xs k ≡ some x
    → P k x
AllAt-get_elem? P k xs x h e = subst (λ j. P j x) (omega arith) (AllAt-get_from P 0 k xs x h e)

-- When there is no element at `k`, the step of the other places is one of all.
pub AllAt-absent :
    {A : Type 0} (P Q : ℕ → A → Type 0) (n k : ℕ) (xs : List A)
    → ((j : ℕ) (x : A) → n + k ≢ j → P j x → Q j x)
    → get_elem? xs k ≡ none
    → AllAt P n xs
    → AllAt Q n xs
AllAt-absent P Q n k [] f e h = tt
AllAt-absent P Q n zero (x ∷ xs) f e h = absurd (cc e)
AllAt-absent P Q n (suc k) (x ∷ xs) f e h = (
  f n x (λ q. omega (arith, q)) h.0,
  AllAt-absent P Q (suc n) k xs (λ j y ne. f j y (λ q. ne (omega (arith, q)))) e h.1,
)
