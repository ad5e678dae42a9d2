-- ===== src/UdpTunnel/Handshake/Retries.antt =====
-- The retries of `attempt_tunnel_handshake`.
use native.Mathlib.Numerals.{add-one}
use native.Mathlib.Nat.{add-zero}
use pocket_relay_client_shar.Prelude.{
  ℕ, zero, suc, ◌+◌, ◌*◌, ◌≤◌, ◌<◌, ◌≡◌, ◌⊎◌, inl, inr, refl, subst, ap, ◌∙◌, some, List, [], ◌∷◌,
  ◌++◌, append_assoc, append-nil, lt→ltb, le→ltb, arith,
}
use pocket_relay_client_shar.Reconnect.{Result, ok, err}
use pocket_relay_client_shar.UdpTunnel.Message.{Protocol}
use pocket_relay_client_shar.UdpTunnel.Handshake.{
  UdpTunnelError, Exchange, initiate_message, handshake_tunnel, retry_loop,
  attempt_tunnel_handshake,
}

-- The first `n` delays of an exponential backoff from `delay`.
abbrev pub backoff : ℕ → ℕ → List ℕ
backoff zero delay = []
backoff (suc n) delay = delay ∷ backoff n (delay * 2)

Result-cases : {E A : Type 0} (r : Result E A) → ((a : A) × (r ≡ ok a)) ⊎ ((e : E) × (r ≡ err e))
Result-cases (ok a) = inl (a, refl)
Result-cases (err e) = inr (e, refl)

module _ (protocol : Protocol) (network : ℕ → Exchange) where
  abbrev pub Fails : ℕ → Type 0
  Fails n = (e : UdpTunnelError) × (handshake_tunnel protocol (network n) ≡ err e)

  -- A failure that is not the last is followed by the next attempt.
  retry_step :
      (fuel n delay : ℕ) (delays : List ℕ)
      → n < 5
      → Fails n
      → retry_loop protocol network (suc fuel) n delay delays
        ≡ retry_loop protocol network fuel (suc n) (delay * 2) (delays ++ (delay ∷ []))
  unfolding retry_loop
  retry_step fuel n delay delays h (e, f) =
      rw (retry_loop, f, le→ltb 5 (n + 1) (omega arith), add-one n)

  snoc : (delays : List ℕ) (d : ℕ) (ds : List ℕ) → (delays ++ (d ∷ [])) ++ ds ≡ delays ++ d ∷ ds
  snoc delays d ds = append_assoc delays (d ∷ []) ds

  retry_until :
      (k fuel n delay : ℕ) (delays : List ℕ) (value : ℕ)
      → n + k ≤ 5
      → k < fuel
      → ((j : ℕ) → n ≤ j → j < n + k → Fails j)
      → handshake_tunnel protocol (network (n + k)) ≡ ok value
      → retry_loop protocol network fuel n delay delays ≡ some (ok value, delays ++ backoff k delay)
  unfolding retry_loop
  retry_until k zero n delay delays value b f h e = absurd (omega arith)
  retry_until zero (suc fuel) n delay delays value b f h e = rw (
    retry_loop,
    subst (λ m. handshake_tunnel protocol (network m) ≡ ok value) (add-zero n) e,
    append-nil delays,
  )
  retry_until (suc k) (suc fuel) n delay delays value b f h e =
      retry_step fuel n delay delays (omega arith) (h n (omega arith) (omega arith))
      ∙ retry_until k fuel (suc n) (delay * 2) (delays ++ (delay ∷ [])) value (omega arith)
          (omega arith) (λ j lo hi. h j (omega arith) (omega arith))
          (subst (λ m. handshake_tunnel protocol (network m) ≡ ok value) (omega arith) e)
      ∙ ap (λ ds. some (ok value, ds)) (snoc delays delay (backoff k (delay * 2)))

  retry_to_end :
      (k fuel n delay : ℕ) (delays : List ℕ) (e : UdpTunnelError)
      → n + k ≡ 5
      → k < fuel
      → ((j : ℕ) → n ≤ j → j < 5 → Fails j)
      → handshake_tunnel protocol (network 5) ≡ err e
      → retry_loop protocol network fuel n delay delays
        ≡ some (err e, delays ++ backoff (suc k) delay)
  unfolding retry_loop
  retry_to_end k zero n delay delays e b f h last = absurd (omega arith)
  retry_to_end zero (suc fuel) n delay delays e b f h last =
      let at : 5 ≡ n = omega arith in
      let failed = subst (λ m. handshake_tunnel protocol (network m) ≡ err e) at last in
      rw (retry_loop, failed, lt→ltb 5 (n + 1) (omega arith))
  retry_to_end (suc k) (suc fuel) n delay delays e b f h last =
      retry_step fuel n delay delays (omega arith) (h n (omega arith) (omega arith))
      ∙ retry_to_end k fuel (suc n) (delay * 2) (delays ++ (delay ∷ [])) e (omega arith)
          (omega arith) (λ j lo hi. h j (omega arith) (omega arith)) last
      ∙ ap (λ ds. some (err e, ds)) (snoc delays delay (backoff (suc k) (delay * 2)))

  retry_total :
      (k fuel n delay : ℕ) (delays : List ℕ)
      → n + k ≡ 5
      → k < fuel
      → (r : Result UdpTunnelError ℕ × List ℕ) × (retry_loop protocol network fuel n delay delays
          ≡ some r)
  unfolding retry_loop
  retry_total k zero n delay delays b f = absurd (omega arith)
  retry_total zero (suc fuel) n delay delays b f =
      elim (Result-cases (handshake_tunnel protocol (network n))) [
        | inl (a, e) ↦ ((ok a, delays), rw (retry_loop, e))
        | inr (c, e) ↦
            ((err c, delays ++ (delay ∷ [])), rw (retry_loop, e, lt→ltb 5 (n + 1) (omega arith)))
      ]
  retry_total (suc k) (suc fuel) n delay delays b f =
      elim (Result-cases (handshake_tunnel protocol (network n))) [
        | inl (a, e) ↦ ((ok a, delays), rw (retry_loop, e))
        | inr (c, e) ↦
            let (r, h) =
              retry_total k fuel (suc n) (delay * 2) (delays ++ (delay ∷ [])) (omega arith)
                (omega arith) in
            (r, retry_step fuel n delay delays (omega arith) (c, e) ∙ h)
      ]

module _ (protocol : Protocol) (association : List ℕ) (network : List ℕ → ℕ → Exchange) where
  -- What the network does with the datagram that opens the handshake.
  abbrev pub answers : ℕ → Exchange
  answers = network (initiate_message protocol association)

  -- A handshake that succeeds after `k` failures, five at most, gives its tunnel id, after delays of
  -- 5 seconds and twice as long each time.
  pub attempt_tunnel_handshake-ok :
      (k value : ℕ)
      → k ≤ 5
      → ((j : ℕ) → j < k → Fails protocol answers j)
      → handshake_tunnel protocol (answers k) ≡ ok value
      → attempt_tunnel_handshake protocol association network ≡ some (ok value, backoff k 5)
  unfolding attempt_tunnel_handshake
  attempt_tunnel_handshake-ok k value b h e =
      retry_until protocol answers k 7 0 5 [] value (omega arith) (omega arith)
        (λ j lo hi. h j (omega arith))
        (subst (λ m. handshake_tunnel protocol (answers m) ≡ ok value) (omega arith) e)

  -- The handshake is given up after six failures, one more than `MAX_HANDSHAKE_ATTEMPTS`, with the
  -- error of the sixth; it has then waited 315 seconds, of which 160 after the last failure.
  pub attempt_tunnel_handshake-err :
      (e : UdpTunnelError)
      → ((j : ℕ) → j < 5 → Fails protocol answers j)
      → handshake_tunnel protocol (answers 5) ≡ err e
      → attempt_tunnel_handshake protocol association network
        ≡ some (err e, 5 ∷ 10 ∷ 20 ∷ 40 ∷ 80 ∷ 160 ∷ [])
  unfolding attempt_tunnel_handshake
  attempt_tunnel_handshake-err e h last =
      retry_to_end protocol answers 5 7 0 5 [] e refl (omega arith) (λ j lo hi. h j hi) last

  -- The handshake comes to an end, whatever the network does.
  pub attempt_tunnel_handshake_total :
      (r : Result UdpTunnelError ℕ × List ℕ) × (attempt_tunnel_handshake protocol association
          network
        ≡ some r)
  unfolding attempt_tunnel_handshake
  attempt_tunnel_handshake_total = retry_total protocol answers 5 7 0 5 [] refl (omega arith)
