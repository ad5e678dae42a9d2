-- ===== src/Qos/Calls/Freshness.antt =====
-- Where the addresses come from that calls of `public_address` give.
use pocket_relay_client_shar.Prelude.{
  ℕ, ◌+◌, ◌<◌, ◌≡◌, refl, ap, ◌∙◌, zero, suc, Bool-cases, Option, Option-cases, none, some, inl,
  inr, List, [], ◌∷◌, ◌++◌, append_assoc, ltb, ltb→lt, All, All-set_elem, All-mono, arith,
}
use pocket_relay_client_shar.Qos.{
  Ipv4, PublicAddrCache, unset, set, first_valid, or_local, fetch_address,
}
use pocket_relay_client_shar.Qos.Calls.{
  Call, looking, waiting, holding, cached, fetched, World, Turn, is_held, look, go_to, fetch,
  proceed, run,
}
use pocket_relay_client_shar.Qos.Calls.Races.{run_keeps}

abbrev pub all_looking : ℕ → List Call
all_looking zero = []
all_looking (suc n) = looking ∷ all_looking n

module _ (parse : List ℕ → Option Ipv4) where
  -- In one of these turns the services or the local address gave this address, and it was written to
  -- the cache at this time.
  pub record Answers (turns : List Turn) (ip : Ipv4) (time : ℕ) : Type 0 where
    pub before : List Turn
    pub turn : Turn
    pub after : List Turn
    pub turns_eq : turns ≡ before ++ (turn ∷ after)
    pub answer_eq :
        or_local parse (first_valid parse turn.network.replies) turn.network.local_ip ≡ some ip
    pub time_eq : turn.network.then_ ≡ time

  Answers-append :
      (turns more : List Turn) (ip : Ipv4) (time : ℕ)
      → Answers turns ip time
      → Answers (turns ++ more) ip time
  Answers-append turns more ip time a = record {
    before = a.before;
    turn = a.turn;
    after = a.after ++ more;
    turns_eq = ap (λ l. l ++ more) a.turns_eq ∙ append_assoc a.before (a.turn ∷ a.after) more;
    answer_eq = a.answer_eq;
    time_eq = a.time_eq;
  }

  -- An address that a call gives is from a fetch in one of the turns, and when it is a cached one, the
  -- cache was written less than half an hour before the call looked at it.
  abbrev pub IsSound : List Turn → Call → Type 0
  IsSound turns (cached ip now) = (time : ℕ) × Answers turns ip time × (now < time + 1800)
  IsSound turns (fetched (some ip)) = (time : ℕ) × Answers turns ip time
  IsSound turns _ = Unit

  abbrev pub IsSoundCache : List Turn → PublicAddrCache → Type 0
  IsSoundCache turns unset = Unit
  IsSoundCache turns (set ip expires) = (time : ℕ) × Answers turns ip time × (expires ≡ time + 1800)

  pub record Sound (turns : List Turn) (w : World) : Type 0 where
    pub cache : IsSoundCache turns w.cache
    pub calls : All (IsSound turns) w.calls

  IsSound-append :
      (turns more : List Turn) (call : Call) → IsSound turns call → IsSound (turns ++ more) call
  IsSound-append turns more looking v = tt
  IsSound-append turns more waiting v = tt
  IsSound-append turns more holding v = tt
  IsSound-append turns more (cached ip now) (time, a, h) =
      (time, Answers-append turns more ip time a, h)
  IsSound-append turns more (fetched none) v = tt
  IsSound-append turns more (fetched (some ip)) (time, a) =
      (time, Answers-append turns more ip time a)

  IsSoundCache-append :
      (turns more : List Turn) (cache : PublicAddrCache)
      → IsSoundCache turns cache
      → IsSoundCache (turns ++ more) cache
  IsSoundCache-append turns more unset v = tt
  IsSoundCache-append turns more (set ip expires) (time, a, h) =
      (time, Answers-append turns more ip time a, h)

  Sound-append :
      (seen : List Turn) (turn : Turn) (w : World) → Sound seen w → Sound (seen ++ (turn ∷ [])) w
  Sound-append seen turn w v = record {
    cache = IsSoundCache-append seen (turn ∷ []) w.cache v.cache;
    calls = All-mono w.calls (IsSound-append seen (turn ∷ [])) v.calls;
  }

  look-IsSound :
      (turns : List Turn) (cache : PublicAddrCache) (now : ℕ)
      → IsSoundCache turns cache
      → IsSound turns (look cache now)
  unfolding look
  look-IsSound turns unset now v = tt
  look-IsSound turns (set ip expires) now (time, a, h) = elim (Bool-cases (ltb now expires)) [
    | inl valid ↦ rw (look, valid) (time, a, omega (arith, ltb→lt now expires valid, h))
    | inr over ↦ rw (look, over) tt
  ]

  go_to-Sound :
      (turns : List Turn) (i : ℕ) (call : Call) (w : World)
      → Sound turns w
      → IsSound turns call
      → Sound turns (go_to i call w)
  go_to-Sound turns i call w v h = record {
    cache = v.cache;
    calls = All-set_elem (IsSound turns) w.calls i call v.calls h;
  }

  fetch-Sound :
      (seen : List Turn) (turn : Turn) (w : World)
      → Sound (seen ++ (turn ∷ [])) w
      → Sound (seen ++ (turn ∷ [])) (fetch parse turn.place turn.network w)
  unfolding fetch_address
  fetch-Sound seen turn w v =
      elim (Option-cases
        (or_local parse (first_valid parse turn.network.replies) turn.network.local_ip)) [
          | inl missing ↦
              rw (fetch_address, missing)
                (record {
                  cache = v.cache;
                  calls =
                      All-set_elem (IsSound (seen ++ (turn ∷ []))) w.calls turn.place (fetched none)
                        v.calls tt;
                })
          | inr (ip, got) ↦
              let a : Answers (seen ++ (turn ∷ [])) ip turn.network.then_ = record {
                before = seen;
                turn = turn;
                after = [];
                turns_eq = refl;
                answer_eq = got;
                time_eq = refl;
              } in
              rw (fetch_address, got)
                (record {
                  cache = (turn.network.then_, a, refl);
                  calls =
                      All-set_elem (IsSound (seen ++ (turn ∷ []))) w.calls turn.place
                        (fetched (some ip)) v.calls (turn.network.then_, a);
                })
        ]

  proceed-Sound :
      (seen : List Turn) (turn : Turn) (w : World) (call : Call)
      → Sound (seen ++ (turn ∷ [])) w
      → Sound (seen ++ (turn ∷ [])) (proceed parse turn.place turn.network w call)
  proceed-Sound seen turn w looking v = elim (Bool-cases (is_held w)) [
    | inl held ↦ rw held v
    | inr free ↦ rw free (
        go_to-Sound _ turn.place (look w.cache turn.network.now) w v
          (look-IsSound _ w.cache turn.network.now v.cache))
  ]
  proceed-Sound seen turn w waiting v = elim (Bool-cases (is_held w)) [
    | inl held ↦ rw held v
    | inr free ↦ rw free (go_to-Sound _ turn.place holding w v tt)
  ]
  proceed-Sound seen turn w holding v = fetch-Sound seen turn w v
  proceed-Sound seen turn w (cached ip now) v = v
  proceed-Sound seen turn w (fetched value) v = v

  all_looking-IsSound : (n : ℕ) → All (IsSound []) (all_looking n)
  all_looking-IsSound zero = tt
  all_looking-IsSound (suc n) = (tt, all_looking-IsSound n)

  -- However many calls start on an empty cache, and in whatever order they have their turns: each
  -- address that one of them gives is one that the services or the local interfaces gave in one of the
  -- turns before, and if it is a cached one, then it was written less than half an hour before the call
  -- looked at the cache; the cache holds such an address until half an hour after it was written.
  pub run-Sound :
      (n : ℕ) (turns : List Turn)
      → Sound turns (run parse turns (record { cache = unset; calls = all_looking n; asked = 0 }))
  run-Sound n turns =
      run_keeps parse Sound Sound-append
        (λ seen turn w call v e. proceed-Sound seen turn w call (Sound-append seen turn w v)) []
        turns (record { cache = unset; calls = all_looking n; asked = 0 })
        (record { cache = tt; calls = all_looking-IsSound n })
