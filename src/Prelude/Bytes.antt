-- ===== src/Prelude/Bytes.antt =====
-- Byte buffers, as the `bytes` crate documents them: big-endian reads that take bytes off the front
-- and panic past the end, and writes that append.
use pocket_relay_client_shar.Prelude.{
  ℕ, ◌+◌, ◌*◌, ◌/◌, ◌%◌, ◌≤◌, ◌<◌, ◌≡◌, List, [], ◌∷◌, ◌++◌, ltb, le→ltb, if◌then◌else◌, length,
  take, drop, Outcome, ok, panic,
}

abbrev pub IsByte : ℕ → Type 0
IsByte b = b < 256

abbrev pub IsU16 : ℕ → Type 0
IsU16 n = n < 65536

-- A read of a value off the front of a buffer.
abbrev pub Read {ℓ} : Type ℓ → Type ℓ
Read A = List ℕ → Outcome (A × List ℕ)

abbrev pub get_u8 : Read ℕ
get_u8 [] = panic
get_u8 (b ∷ src) = ok (b, src)

abbrev pub get_u16 : Read ℕ
get_u16 [] = panic
get_u16 (b ∷ []) = panic
get_u16 (b ∷ c ∷ src) = ok (b * 256 + c, src)

abbrev pub split_to : ℕ → Read (List ℕ)
split_to n src = if ltb (length src) n then panic else ok (take n src, drop n src)

abbrev pub put_u8 : List ℕ → ℕ → List ℕ
put_u8 dst n = dst ++ (n % 256 ∷ [])

abbrev pub put_u16 : List ℕ → ℕ → List ℕ
put_u16 dst n = dst ++ (n / 256 % 256 ∷ n % 256 ∷ [])

-- `r` needs `n` bytes and takes `n` bytes: it does not panic, and does not look at later bytes.
abbrev pub Reads {ℓ} : {A : Type ℓ} → ℕ → Read A → Type ℓ
Reads {A = A} n r =
    (src : List ℕ)
    → n ≤ length src
    → (a : A) × (rest : List ℕ) × (length rest + n ≡ length src)
      × ((more : List ℕ) → r (src ++ more) ≡ ok (a, rest ++ more))

pub split_to_lem :
    (n : ℕ) (src : List ℕ) → n ≤ length src → split_to n src ≡ ok (take n src, drop n src)
split_to_lem n src h = rw (le→ltb (length src) n h)
