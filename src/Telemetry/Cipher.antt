-- ===== src/Telemetry/Cipher.antt =====
-- `xor_cipher` and `tlm3`.
use Prim.Native.Nat.{bit_xor}
use pocket_relay_client_shar.Prelude.{
  ℕ, zero, suc, ◌%◌, ◌<◌, ◌≡◌, refl, ◌∙◌, some, none, ◌++◌, Bool, true, false, if◌then◌else◌, List,
  [], ◌∷◌, map, arith, ◌==◌, ==_iff, length, All, ◌≢◌,
}
use pocket_relay_client_shar.Prelude.Bytes.{IsByte}
use pocket_relay_client_shar.Telemetry.{zip_cycle, xor_cipher, splitn_2, tlm3, tlm3_key, debug}

-- A test of each number below a bound.
passes : (ℕ → Bool) → ℕ → Bool
passes test zero = true
passes test (suc bound) = if test bound then passes test bound else false

passes_lem : (test : ℕ → Bool) (bound n : ℕ) → n < bound → passes test bound ≡ true → test n ≡ true
unfolding passes
passes_lem test zero n below e = absurd (omega arith)
passes_lem test (suc bound) n below e = ground (arith, passes_lem test bound n)

-- Whether the byte comes back, but for its top bit, when the key's byte is put on twice.
abbrev comes_back : ℕ → ℕ → Bool
comes_back key byte = bit_xor (bit_xor byte key % 0x80) key % 0x80 == byte % 0x80

each_byte : passes (λ key. passes (comes_back key) 256) 256 ≡ true
unfolding passes
each_byte = refl

xor_undoes : (k b : ℕ) → k < 256 → b < 256 → bit_xor (bit_xor b k % 128) k % 128 ≡ b % 128
xor_undoes k b hk hb =
    let row = passes_lem (λ key. passes (comes_back key) 256) 256 k hk each_byte in
    (==_iff _ _).0 (passes_lem (comes_back k) 256 b hb row)

abbrev encipher : List ℕ → List ℕ → List ℕ → List ℕ
encipher input key rest = map (λ p. bit_xor p.0 p.1 % 128) (zip_cycle input key rest)

encipher-encipher :
    (input : List ℕ) (k : ℕ) (key rest : List ℕ)
    → All IsByte input
    → All IsByte (k ∷ key)
    → All IsByte rest
    → encipher (encipher input (k ∷ key) rest) (k ∷ key) rest ≡ map (λ b. b % 128) input
unfolding zip_cycle
encipher-encipher [] k key rest hi hk hr = refl
encipher-encipher (b ∷ bs) k key [] hi hk hr =
    cc (xor_undoes k b hk.0 hi.0, encipher-encipher bs k key key hi.1 hk hk.1)
encipher-encipher (b ∷ bs) k key (r ∷ rest) hi hk hr =
    cc (xor_undoes r b hr.0 hi.0, encipher-encipher bs k key rest hi.1 hk hr.1)

-- The cipher undoes itself up to the top bit, which it clears: under any key that is not empty,
-- enciphering bytes twice gives each byte modulo 128.
pub xor_cipher-xor_cipher :
    (input : List ℕ) (k : ℕ) (key : List ℕ)
    → All IsByte input
    → All IsByte (k ∷ key)
    → xor_cipher (xor_cipher input (k ∷ key)) (k ∷ key) ≡ map (λ b. b % 128) input
unfolding xor_cipher
xor_cipher-xor_cipher input k key hi hk = encipher-encipher input k key (k ∷ key) hi hk hk

encipher_bounds :
    (input : List ℕ) (k : ℕ) (key rest : List ℕ)
    → (length (encipher input (k ∷ key) rest) ≡ length input)
      × All (λ c. c < 128) (encipher input (k ∷ key) rest)
unfolding zip_cycle
encipher_bounds [] k key rest = (refl, tt)
encipher_bounds (b ∷ bs) k key [] =
    let (l, a) = encipher_bounds bs k key key in (omega arith, (omega arith, a))
encipher_bounds (b ∷ bs) k key (r ∷ rest) =
    let (l, a) = encipher_bounds bs k key rest in (omega arith, (omega arith, a))

-- The cipher gives a byte for each byte, all of them ASCII, so that the unchecked conversion of the
-- result of `tlm3` to a text is sound.
pub xor_cipher_bounds :
    (input : List ℕ) (k : ℕ) (key : List ℕ)
    → (length (xor_cipher input (k ∷ key)) ≡ length input)
      × All (λ c. c < 128) (xor_cipher input (k ∷ key))
unfolding xor_cipher
xor_cipher_bounds input k key = encipher_bounds input k key (k ∷ key)

pub splitn_2-append :
    (separator : ℕ) (first second : List ℕ)
    → All (λ b. b ≢ separator) first
    → splitn_2 separator (first ++ separator ∷ second) ≡ some (first, second)
unfolding splitn_2
splitn_2-append separator [] second h = ground arith
splitn_2-append separator (b ∷ first) second h =
    ground (arith, splitn_2-append separator first second h.1, h.0)

pub splitn_2-none :
    (separator : ℕ) (line : List ℕ) → All (λ b. b ≢ separator) line → splitn_2 separator line ≡ none
unfolding splitn_2
splitn_2-none separator [] h = refl
splitn_2-none separator (b ∷ line) h = ground (arith, splitn_2-none separator line h.1, h.0)

mod_ascii : (text : List ℕ) → All (λ c. c < 128) text → map (λ b. b % 128) text ≡ text
mod_ascii [] h = refl
mod_ascii (c ∷ text) h = cc (mod_ascii text h.1, low c h.0)
  where
    low : (c : ℕ) → c < 128 → c % 128 ≡ c
    low c h = omega arith

ascii_bytes : (text : List ℕ) → All (λ c. c < 128) text → All IsByte text
ascii_bytes [] h = tt
ascii_bytes (c ∷ text) h = (omega arith, ascii_bytes text h.1)

-- A TLM3 line decodes to the ASCII text that was enciphered into it, whatever prefix without a dash
-- stands before the first dash; a line without a dash is printed as a list of bytes.
pub tlm3_lem :
    (prefix text line : List ℕ)
    → All (λ c. c < 128) text
    → All (λ b. b ≢ b'-') prefix
    → All (λ b. b ≢ b'-') line
    → (tlm3 (prefix ++ b'-' ∷ xor_cipher text tlm3_key) ≡ text) × (tlm3 line ≡ debug line)
unfolding tlm3
tlm3_lem prefix text line a h l = (
  rw (tlm3, splitn_2-append b'-' prefix (xor_cipher text tlm3_key) h)
      (xor_cipher-xor_cipher text _ _ (ascii_bytes text a) (omega arith) ∙ mod_ascii text a),
  rw (tlm3, splitn_2-none b'-' line l),
)
