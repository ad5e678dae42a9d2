-- ===== src/Tunnel/Socket/Bytes.antt =====
-- The bytes of a message across the steps of its sending.
use mathlib.Core.List.{map-append}
use pocket_relay_client_shar.Prelude.{
  ℕ, zero, suc, ◌≤◌, ◌≡◌, refl, sym, ap, ◌∙◌, List, [], ◌∷◌, ◌++◌, map, append-nil, append_assoc,
  length, take, drop, take-append-drop, arith,
}
use pocket_relay_client_shar.Framing.{concat}
use pocket_relay_client_shar.Tunnel.Socket.{SocketWriteState, recv, write, min_of}

pub concat-append : (xs ys : List (List ℕ)) → concat (xs ++ ys) ≡ concat xs ++ concat ys
concat-append [] ys = refl
concat-append (x ∷ xs) ys =
    ap (λ l. x ++ l) (concat-append xs ys) ∙ sym (append_assoc x (concat xs) (concat ys))

-- The bytes that are still to be sent.
abbrev pub left : SocketWriteState → List ℕ
left recv = []
left (write message) = message
left SocketWriteState.stop = []

abbrev pub IsLive : SocketWriteState → Type 0
IsLive recv = Unit {0}
IsLive (write message) = Unit {0}
IsLive SocketWriteState.stop = ⊥

pub min_of-le : (a b : ℕ) → min_of a b ≤ b
min_of-le a b = ground arith

pub drop_all : (n : ℕ) (m : List ℕ) → n ≡ length m → drop n m ≡ []
drop_all zero [] e = refl
drop_all zero (x ∷ m) e = absurd (omega (arith, e))
drop_all (suc n) [] e = refl
drop_all (suc n) (x ∷ m) e = drop_all n m (omega (arith, e))

pub take_step :
    {In : Type 0} (payload : In → List ℕ) (taken : List In) (m : In) (sent : List ℕ)
    → sent ++ [] ≡ concat (map payload taken)
    → sent ++ payload m ≡ concat (map payload (taken ++ (m ∷ [])))
take_step payload taken m sent e =
    ap (λ l. l ++ payload m) (sym (append-nil sent) ∙ e)
    ∙ ap (λ l. concat (map payload taken) ++ l) (sym (append-nil (payload m)))
    ∙ sym (concat-append (map payload taken) (payload m ∷ []))
    ∙ ap concat (sym (map-append payload taken (m ∷ [])))

-- The bytes that a send takes and the rest of the message are the message.
pub send_step :
    (sent : List (List ℕ)) (m total : List ℕ) (count : ℕ)
    → concat sent ++ m ≡ total
    → concat (sent ++ (take count m ∷ [])) ++ drop count m ≡ total
send_step sent m total count e =
    ap (λ l. l ++ drop count m)
      (concat-append sent (take count m ∷ [])
        ∙ ap (λ l. concat sent ++ l) (append-nil (take count m)))
    ∙ append_assoc (concat sent) (take count m) (drop count m)
    ∙ ap (λ l. concat sent ++ l) (take-append-drop count m)
    ∙ e
