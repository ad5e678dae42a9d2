-- ===== src/Framing/Outcomes.antt =====
-- The bytes that a connection gives, whatever the chunks are in which they arrive, and what the loop of
-- `decode` calls makes of them.
use mathlib.Core.HLevel.{Σ_prop_path, Π_prop}
use mathlib.Core.Equiv.{IsContr, IsContr-prop}
use mathlib.Core.Logic.{∥∥₁_elim, ∥∥₁_prop}
use mathlib.Core.Quot
use mathlib.Core.Quot.{Quot}
use native.Mathlib.Nat.{ℕ_set}
use pocket_relay_client_shar.Prelude.{ℕ, ◌≡◌, refl, sym, ap, subst, List, []}
use pocket_relay_client_shar.Framing.{
  Decode, Resumes, Receives, concat, Drains, Receives-total, Receives-unique, Receives-concat,
  Receives-concat_inv,
}

-- Two ways to cut the same bytes.
abbrev pub SameBytes : List (List ℕ) → List (List ℕ) → Type 0
SameBytes cs ds = concat cs ≡ concat ds

abbrev pub Stream : Type 0
Stream = Quot SameBytes

abbrev pub in_chunks : List (List ℕ) → Stream
in_chunks = Quot.mk

unfoldable pub bytes_of : Stream → List ℕ
bytes_of = Quot.lift (hlevel ℕ_set) concat (λ cs ds e. e)

pub exact : (cs ds : List (List ℕ)) → in_chunks cs ≡ in_chunks ds → concat cs ≡ concat ds
unfolding bytes_of
exact cs ds e = ap bytes_of e

-- In each way to cut the stream, the loop comes to rest with the state, the bytes and the frames.
abbrev pub ComesTo :
    {State Item : Type 0} → Decode State Item → State → Stream → State × List ℕ × List Item → Type 0
ComesTo decode s stream r =
    (chunks : List (List ℕ))
    → in_chunks chunks ≡ stream
    → ∥ Receives decode r.0 r.1 s [] chunks r.2 ∥₁

abbrev pub ComesToOne : {State Item : Type 0} → Decode State Item → State → Stream → Type 0
ComesToOne {State} {Item} decode s stream =
    IsContr ((r : State × List ℕ × List Item) × ComesTo decode s stream r)

module _ {State Item : Type 0} (decode : Decode State Item) (measure : State → List ℕ → ℕ)
    (dec : Resumes decode measure) (sets : IsSet (State × List ℕ × List Item)) where
  comes_to :
      {t : State} {rest : List ℕ} {fs : List Item} (s : State) (cs : List (List ℕ))
      → Receives decode t rest s [] cs fs
      → ComesTo decode s (in_chunks cs) (t, rest, fs)
  comes_to {t} {rest} {fs} s cs r ds e =
      ∣ Receives-concat_inv decode measure dec ds (
        subst (λ b. Drains decode t rest s b fs) (sym (exact ds cs e))
          (Receives-concat decode measure dec r)) ∣₁

  same :
      {t : State} {rest : List ℕ} {fs : List Item} (s : State) (cs : List (List ℕ))
      → Receives decode t rest s [] cs fs
      → (r : State × List ℕ × List Item) → ComesTo decode s (in_chunks cs) r
      → r ≡ (t, rest, fs)
  same s cs r other comes =
      ∥∥₁_elim (comes cs refl) (sets _ _)
        λ d. let (a, b, c) = Receives-unique decode measure dec d r refl in cc (a, b, c)

  in_chunks-ComesToOne : (s : State) (cs : List (List ℕ)) → ComesToOne decode s (in_chunks cs)
  in_chunks-ComesToOne s cs =
      let (t, rest, fs, r) = Receives-total decode measure dec s [] cs in
      (
        ((t, rest, fs), comes_to s cs r),
        λ other.
            Σ_prop_path (λ p. Π_prop (λ ds. Π_prop (λ e. ∥∥₁_prop))) (same s cs r other.0 other.1),
      )

  pub receives-ComesToOne : (s : State) (stream : Stream) → ComesToOne decode s stream
  receives-ComesToOne s = Quot.ind (λ q. IsContr-prop) (in_chunks-ComesToOne s)
