-- ===== src/Telemetry/Keystream.antt =====
-- `xor_cipher` against a definition by positions.
use Prim.Native.Nat.{bit_xor}
use native.Mathlib.Nat.{mod-eq_of_lt, add-mod_left, mod_self}
use pocket_relay_client_shar.Prelude.{
  ℕ, zero, suc, ◌+◌, ◌%◌, ◌<◌, ◌≤◌, ◌≡◌, refl, sym, ap, ◌∙◌, subst, Option, some, none, List, [],
  ◌∷◌, map, arith, length, get_elem?, drop,
}
use pocket_relay_client_shar.Telemetry.{zip_cycle, xor_cipher}

-- A byte and a byte of the key, if both are there.
abbrev xored : Option ℕ → Option ℕ → Option ℕ
xored (some b) (some k) = some (bit_xor b k % 128)
xored _ _ = none

drop-some :
    (key : List ℕ) (j k : ℕ) (rest : List ℕ)
    → drop j key ≡ k ∷ rest
    → (j < length key) × (get_elem? key j ≡ some k) × (drop (suc j) key ≡ rest)
drop-some [] zero k rest e = absurd (cc e)
drop-some [] (suc j) k rest e = absurd (cc e)
drop-some (x ∷ key) zero k rest e = (omega arith, cc e, cc e)
drop-some (x ∷ key) (suc j) k rest e =
    let (a, b, c) = drop-some key j k rest e in (omega (arith, a), b, c)

drop_none : (key : List ℕ) (j : ℕ) → drop j key ≡ [] → length key ≤ j
drop_none [] j e = omega arith
drop_none (x ∷ key) zero e = absurd (cc e)
drop_none (x ∷ key) (suc j) e = omega (arith, drop_none key j e)

abbrev enciphered : List ℕ → List ℕ → List ℕ → List ℕ
enciphered input key rest = map (λ p. bit_xor p.0 p.1 % 0x80) (zip_cycle input key rest)

-- When `j` bytes of the key are used up, the byte at `i` meets the byte of the key at `j + i`.
get_elem?-enciphered :
    (input : List ℕ) (k : ℕ) (key rest : List ℕ) (j i : ℕ)
    → j ≤ length (k ∷ key)
    → drop j (k ∷ key) ≡ rest
    → get_elem? (enciphered input (k ∷ key) rest) i
      ≡ xored (get_elem? input i) (get_elem? (k ∷ key) ((j + i) % length (k ∷ key)))
unfolding zip_cycle
get_elem?-enciphered [] k key rest j i le e = refl
get_elem?-enciphered (b ∷ input) k key [] j zero le e =
    let l : j ≡ length (k ∷ key) = omega (arith, le, drop_none (k ∷ key) j e) in
    let at : (j + 0) % length (k ∷ key) ≡ 0 =
      ap (λ n. n % length (k ∷ key)) (omega (arith, l)) ∙ mod_self (length (k ∷ key)) in
    rw at refl
get_elem?-enciphered (b ∷ input) k key [] j (suc i) le e =
    let l : j ≡ length (k ∷ key) = omega (arith, le, drop_none (k ∷ key) j e) in
    let at : (1 + i) % length (k ∷ key) ≡ (j + suc i) % length (k ∷ key) =
      sym (add-mod_left (length (k ∷ key)) (1 + i))
      ∙ ap (λ n. n % length (k ∷ key)) (omega (arith, l)) in
    subst
      (λ n.
        get_elem? (enciphered input (k ∷ key) key) i
        ≡ xored (get_elem? input i) (get_elem? (k ∷ key) n))
      at (get_elem?-enciphered input k key key 1 i (omega arith) refl)
get_elem?-enciphered (b ∷ input) k key (r ∷ rest) j zero le e =
    let (l, found, next) = drop-some (k ∷ key) j r rest e in
    let at : (j + 0) % length (k ∷ key) ≡ j =
      ap (λ n. n % length (k ∷ key)) (omega arith) ∙ mod-eq_of_lt l in
    let q : get_elem? (k ∷ key) ((j + 0) % length (k ∷ key)) ≡ some r =
      ap (get_elem? (k ∷ key)) at ∙ found in
    sym (ap (xored (some b)) q)
get_elem?-enciphered (b ∷ input) k key (r ∷ rest) j (suc i) le e =
    let (l, found, next) = drop-some (k ∷ key) j r rest e in
    subst
      (λ n.
        get_elem? (enciphered input (k ∷ key) rest) i
        ≡ xored (get_elem? input i) (get_elem? (k ∷ key) (n % length (k ∷ key))))
      (omega arith) (get_elem?-enciphered input k key rest (suc j) i (omega (arith, l)) next)

-- The cipher by positions, under any key that is not empty: the byte at a position is the byte of the
-- input there, xored with the byte of the key at that position modulo the length of the key, modulo
-- 128; and there are no other bytes.
get_elem?-xor_cipher :
    (input : List ℕ) (k : ℕ) (key : List ℕ) (i : ℕ)
    → get_elem? (xor_cipher input (k ∷ key)) i
      ≡ xored (get_elem? input i) (get_elem? (k ∷ key) (i % length (k ∷ key)))
unfolding xor_cipher
get_elem?-xor_cipher input k key i =
    subst
      (λ n.
        get_elem? (enciphered input (k ∷ key) (k ∷ key)) i
        ≡ xored (get_elem? input i) (get_elem? (k ∷ key) (n % length (k ∷ key))))
      (omega arith) (get_elem?-enciphered input k key (k ∷ key) 0 i (omega arith) refl)
