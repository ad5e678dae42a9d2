-- ===== src/Prelude/Text.antt =====
-- Texts as lists of code points, with the tests of `str` on them.
use Prim.Native.Char.{code}
use Prim.Native.String.{String}
use pocket_relay_client_shar.Prelude.{
  ℕ, ◌≡◌, refl, Bool, true, false, ◌&&◌, List, [], ◌∷◌, ◌++◌, ◌==◌, arith,
}

-- The code points of a literal.
abbrev pub code_points : String → List ℕ
code_points String.[] = []
code_points (String.◌∷◌ c text) = code c ∷ code_points text

unfoldable pub text_eq : List ℕ → List ℕ → Bool
text_eq [] [] = true
text_eq [] (c ∷ cs) = false
text_eq (b ∷ bs) [] = false
text_eq (b ∷ bs) (c ∷ cs) = (b == c) && text_eq bs cs

unfoldable pub starts_with : List ℕ → List ℕ → Bool
starts_with text [] = true
starts_with [] (c ∷ cs) = false
starts_with (b ∷ bs) (c ∷ cs) = (b == c) && starts_with bs cs

unfoldable pub ends_with : List ℕ → ℕ → Bool
ends_with [] c = false
ends_with (b ∷ []) c = b == c
ends_with (b ∷ d ∷ bs) c = ends_with (d ∷ bs) c

pub text_eq_sound : (s t : List ℕ) → text_eq s t ≡ true → s ≡ t
unfolding text_eq
text_eq_sound [] [] e = refl
text_eq_sound [] (c ∷ cs) e = cc e
text_eq_sound (b ∷ bs) [] e = cc e
text_eq_sound (b ∷ bs) (c ∷ cs) e = ground (arith, text_eq_sound bs cs)

pub text_eq_refl : (s : List ℕ) → text_eq s s ≡ true
unfolding text_eq
text_eq_refl [] = refl
text_eq_refl (b ∷ bs) = ground (arith, text_eq_refl bs)

pub starts_with-append : (p s : List ℕ) → starts_with (p ++ s) p ≡ true
unfolding starts_with
starts_with-append [] s = refl
starts_with-append (c ∷ p) s = ground (arith, starts_with-append p s)

pub starts_with-snoc : (s t p : List ℕ) → starts_with s p ≡ true → starts_with (s ++ t) p ≡ true
unfolding starts_with
starts_with-snoc s t [] e = refl
starts_with-snoc [] t (c ∷ p) e = cc e
starts_with-snoc (b ∷ s) t (c ∷ p) e = ground (arith, starts_with-snoc s t p)

pub ends_with-snoc : (s : List ℕ) (c : ℕ) → ends_with (s ++ (c ∷ [])) c ≡ true
unfolding ends_with
ends_with-snoc [] c = ground arith
ends_with-snoc (b ∷ []) c = ground arith
ends_with-snoc (b ∷ d ∷ s) c = ends_with-snoc (d ∷ s) c
