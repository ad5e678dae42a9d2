-- ===== src/Polling.antt =====
-- Polls of `std::task`, and what the polled objects answer. A poll of a channel, a socket or a
-- stream takes its answer from a script, which the environment has written; a script that has
-- come to its end answers `Pending`. A theorem for every script holds whatever the environment does.
use pocket_relay_client_shar.Prelude.{Option, some, List, [], ◌∷◌}

pub data Poll (A : Type 0) : Type 0 where
  pending : Poll A
  ready : A → Poll A

abbrev pub answer : {A : Type 0} → List (Poll A) → Poll A
answer [] = pending
answer (p ∷ script) = p

abbrev pub later : {A : Type 0} → List A → List A
later [] = []
later (p ∷ script) = script

-- How a call of `Future::poll` ends: `Pending`, `Ready`, a panic, or (in the model only) no fuel.
pub data Run (A : Type 0) : Type 0 where
  rests : A → Run A
  stops : A → Run A
  panics : Run A
  starves : Run A

-- The messages that the script of a channel still holds.
abbrev pub messages : {A : Type 0} → List (Poll (Option A)) → List A
messages [] = []
messages (ready (some m) ∷ rx) = m ∷ messages rx
messages (_ ∷ rx) = messages rx
