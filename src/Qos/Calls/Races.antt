-- ===== src/Qos/Calls/Races.antt =====
-- What holds of the public address however calls of `public_address` interleave.
use pocket_relay_client_shar.Prelude.{
  ℕ, zero, suc, ◌≤◌, ◌≡◌, ◌⊎◌, refl, sym, ap, ◌∙◌, subst, Bool-cases, Option, Option-cases, none,
  some, inl, inr, List, [], ◌∷◌, ◌++◌, append-nil, append_assoc, ltb→le, length, get_elem?, total,
  All, All-set_elem, All-get_elem?, total-set_elem, length-set_elem, arith,
}
use pocket_relay_client_shar.Qos.{Ipv4, PublicAddrCache, unset, set, Network, fetch_address}
use pocket_relay_client_shar.Qos.Calls.{
  Call, looking, waiting, holding, cached, fetched, holds, World, Turn, is_held, look, proceed,
  step, run,
}

abbrev pub is_fetched : Call → ℕ
is_fetched (fetched value) = 1
is_fetched _ = 0

look-holds : (cache : PublicAddrCache) (now : ℕ) → holds (look cache now) ≡ 0
unfolding look
look-holds unset now = refl
look-holds (set value expires) now = ground arith

-- At most one call holds the write lock.
abbrev pub IsExclusive : World → Type 0
IsExclusive w = total holds w.calls ≤ 1

-- A call that has found no valid address in the cache, with its fetch before it or behind it.
abbrev pub IsBound : Call → Type 0
IsBound looking = ⊥
IsBound (cached ip now) = ⊥
IsBound _ = Unit

abbrev pub IsDone : Call → Type 0
IsDone (cached ip now) = Unit
IsDone (fetched value) = Unit
IsDone _ = ⊥

-- The calls have found no valid address, and those that are done have asked the services.
record Bound (n : ℕ) (w : World) : Type 0 where
  calls : All IsBound w.calls
  length_eq : length w.calls ≡ n
  asked_eq : w.asked ≡ total is_fetched w.calls

total-length :
    (calls : List Call)
    → All IsBound calls
    → All IsDone calls
    → total is_fetched calls ≡ length calls
total-length [] b d = refl
total-length (looking ∷ calls) b d = absurd d.0
total-length (waiting ∷ calls) b d = absurd d.0
total-length (holding ∷ calls) b d = absurd d.0
total-length (cached ip now ∷ calls) b d = absurd b.0
total-length (fetched value ∷ calls) b d = omega (arith, total-length calls b.1 d.1)

abbrev pub all_waiting : ℕ → List Call
all_waiting zero = []
all_waiting (suc n) = waiting ∷ all_waiting n

abbrev pub rush : ℕ → PublicAddrCache → World
rush n cache = record { cache = cache; calls = all_waiting n; asked = 0 }

all_waiting-Bound : (n : ℕ) (cache : PublicAddrCache) → Bound n (rush n cache)
all_waiting-Bound zero cache = record { calls = tt; length_eq = refl; asked_eq = refl }
all_waiting-Bound (suc n) cache =
    let b = all_waiting-Bound n cache in
    record {
      calls = (tt, b.calls);
      length_eq = ap suc b.length_eq;
      asked_eq = omega (arith, b.asked_eq);
    }

module _ (parse : List ℕ → Option Ipv4) where
  -- To prove a predicate of every run and of the turns taken so far, prove it of a call that proceeds.
  pub run_keeps :
      (P : List Turn → World → Type 0)
      → ((seen : List Turn) (turn : Turn) (w : World) → P seen w → P (seen ++ (turn ∷ [])) w)
      → ((seen : List Turn) (turn : Turn) (w : World) (call : Call)
          → P seen w
          → get_elem? w.calls turn.place ≡ some call
          → P (seen ++ (turn ∷ [])) (proceed parse turn.place turn.network w call))
      → (seen turns : List Turn) (w : World) → P seen w
      → P (seen ++ turns) (run parse turns w)
  unfolding run step
  run_keeps P stays h seen [] w v = subst (λ l. P l w) (sym (append-nil seen)) v
  run_keeps P stays h seen (turn ∷ turns) w v =
      subst (λ l. P l (run parse turns (step parse turn w))) (append_assoc seen (turn ∷ []) turns)
        (run_keeps P stays h (seen ++ (turn ∷ [])) turns (step parse turn w)
          (keeps (Option-cases (get_elem? w.calls turn.place))))
    where
      keeps :
          (get_elem? w.calls turn.place ≡ none)
            ⊎ ((call : Call) × (get_elem? w.calls turn.place ≡ some call))
          → P (seen ++ (turn ∷ [])) (step parse turn w)
      keeps (inl absent) = rw (step, absent) (stays seen turn w v)
      keeps (inr (call, present)) = rw (step, present) (h seen turn w call v present)

  proceed-IsExclusive :
      (i : ℕ) (network : Network) (w : World) (call : Call)
      → IsExclusive w
      → get_elem? w.calls i ≡ some call
      → IsExclusive (proceed parse i network w call)
  proceed-IsExclusive i network w looking v e = elim (Bool-cases (is_held w)) [
    | inl held ↦ rw held v
    | inr free ↦ rw free (
        omega (
          arith,
          v,
          total-set_elem holds w.calls i looking (look w.cache network.now) e,
          look-holds w.cache network.now,
        ))
  ]
  proceed-IsExclusive i network w waiting v e = elim (Bool-cases (is_held w)) [
    | inl held ↦ rw held v
    | inr free ↦
        rw free
          (omega (arith, v, ltb→le _ _ free, total-set_elem holds w.calls i waiting holding e))
  ]
  proceed-IsExclusive i network w holding v e = omega (
    arith,
    v,
    total-set_elem holds w.calls i holding (fetched (fetch_address parse w.cache network).0) e,
  )
  proceed-IsExclusive i network w (cached value time) v e = v
  proceed-IsExclusive i network w (fetched value) v e = v

  -- However the calls interleave, at most one of them holds the write lock.
  pub run-IsExclusive :
      (turns : List Turn) (w : World) → IsExclusive w → IsExclusive (run parse turns w)
  run-IsExclusive turns w v =
      run_keeps (λ seen. IsExclusive) (λ seen turn w v. v)
        (λ seen turn. proceed-IsExclusive turn.place turn.network) [] turns w v

  proceed-Bound :
      (n i : ℕ) (network : Network) (w : World) (call : Call)
      → Bound n w
      → get_elem? w.calls i ≡ some call
      → Bound n (proceed parse i network w call)
  proceed-Bound n i network w looking v e =
      absurd (All-get_elem? IsBound w.calls i looking v.calls e)
  proceed-Bound n i network w waiting v e = elim (Bool-cases (is_held w)) [
    | inl held ↦ rw held v
    | inr free ↦ rw free (record {
      calls = All-set_elem IsBound w.calls i holding v.calls tt;
      length_eq = length-set_elem w.calls i holding ∙ v.length_eq;
      asked_eq = omega (arith, v.asked_eq, total-set_elem is_fetched w.calls i waiting holding e);
    })
  ]
  proceed-Bound n i network w holding v e =
      let call = fetched (fetch_address parse w.cache network).0 in
      record {
        calls = All-set_elem IsBound w.calls i call v.calls tt;
        length_eq = length-set_elem w.calls i call ∙ v.length_eq;
        asked_eq = omega (arith, v.asked_eq, total-set_elem is_fetched w.calls i holding call e);
      }
  proceed-Bound n i network w (cached ip now) v e =
      absurd (All-get_elem? IsBound w.calls i (cached ip now) v.calls e)
  proceed-Bound n i network w (fetched value) v e = v

  -- Calls that wait for the write lock, as each found no valid address in the cache, all ask the
  -- services: when they are done, in whatever order they had their turns, the services were asked as
  -- many times as there are calls. None of them takes the address that another has written.
  pub run-asked :
      (n : ℕ) (cache : PublicAddrCache) (turns : List Turn)
      → All IsDone (run parse turns (rush n cache)).calls
      → (run parse turns (rush n cache)).asked ≡ n
  run-asked n cache turns done =
      let b =
        run_keeps (λ seen. Bound n) (λ seen turn w v. v)
          (λ seen turn. proceed-Bound n turn.place turn.network) [] turns (rush n cache)
          (all_waiting-Bound n cache) in
      b.asked_eq ∙ total-length (run parse turns (rush n cache)).calls b.calls done ∙ b.length_eq
