-- ===== src/Telemetry/Values.antt =====
-- `read_telemetry_event`: from the lines of a message to the values of its event.
use pocket_relay_client_shar.Prelude.{ℕ, ◌≡◌, ◌≢◌, refl, ap, ◌∙◌, List, [], ◌∷◌, ◌++◌, arith, All}
use pocket_relay_client_shar.Telemetry.{split, decode_pair, decode_lines, decode_values}
use pocket_relay_client_shar.Telemetry.Cipher.{splitn_2-append, splitn_2-none}

-- A line of a message: a pair, or one without an equals sign.
pub data Line : Type 0 where
  pair : List ℕ → List ℕ → Line
  noise : List ℕ → Line

abbrev pub render : Line → List ℕ
render (pair key value) = key ++ b'=' ∷ value
render (noise line) = line

abbrev pub Without : ℕ → List ℕ → Type 0
Without c = All (λ b. b ≢ c)

abbrev pub IsLine : Line → Type 0
IsLine (pair key value) = Without b'=' key × Without b'\n' (key ++ b'=' ∷ value)
IsLine (noise line) = Without b'=' line × Without b'\n' line

-- The lines with a newline between each two.
abbrev pub join : Line → List Line → List ℕ
join line [] = render line
join line (next ∷ lines) = render line ++ b'\n' ∷ join next lines

abbrev pub renders : List Line → List (List ℕ)
renders [] = []
renders (line ∷ lines) = render line ∷ renders lines

split-Without : (c : ℕ) (line : List ℕ) → Without c line → split c line ≡ line ∷ []
unfolding split
split-Without c [] h = refl
split-Without c (b ∷ line) h = rw (split-Without c line h.1) (ground (arith, h.0))

pub split-append :
    (c : ℕ) (line rest : List ℕ) → Without c line → split c (line ++ c ∷ rest) ≡ line ∷ split c rest
unfolding split
split-append c [] rest h = ground arith
split-append c (b ∷ line) rest h = rw (split-append c line rest h.1) (ground (arith, h.0))

IsLine-Without : (line : Line) → IsLine line → Without b'\n' (render line)
IsLine-Without (pair key value) h = h.1
IsLine-Without (noise line) h = h.1

split-join :
    (line : Line) (lines : List Line)
    → All IsLine (line ∷ lines)
    → split b'\n' (join line lines) ≡ render line ∷ renders lines
split-join line [] h = split-Without b'\n' (render line) (IsLine-Without line h.0)
split-join line (next ∷ lines) h =
    split-append b'\n' (render line) (join next lines) (IsLine-Without line h.0)
    ∙ ap (◌∷◌ (render line)) (split-join next lines h.1)

module _ (from_utf8_lossy : List ℕ → List ℕ) where
  -- The values that the lines stand for: the pairs in their order, decoded one by one.
  abbrev pub collect : List Line → List (List ℕ × List ℕ)
  collect [] = []
  collect (pair key value ∷ lines) = decode_pair from_utf8_lossy (key, value) ∷ collect lines
  collect (noise line ∷ lines) = collect lines

  decode_lines-renders :
      (lines : List Line)
      → All IsLine lines
      → decode_lines from_utf8_lossy (renders lines) ≡ collect lines
  unfolding decode_lines
  decode_lines-renders [] h = refl
  decode_lines-renders (pair key value ∷ lines) h =
      rw (decode_lines, splitn_2-append b'=' key value h.0.0, decode_lines-renders lines h.1)
  decode_lines-renders (noise line ∷ lines) h =
      rw (decode_lines, splitn_2-none b'=' line h.0.0) (decode_lines-renders lines h.1)

  -- The values of a message are those of its `key=value` lines, in their order: the key ends at the
  -- first equals sign, and lines without one are skipped.
  pub decode_values-join :
      (line : Line) (lines : List Line)
      → All IsLine (line ∷ lines)
      → decode_values from_utf8_lossy (join line lines) ≡ collect (line ∷ lines)
  unfolding decode_values
  decode_values-join line lines h =
      rw (split-join line lines h) (decode_lines-renders (line ∷ lines) h)
