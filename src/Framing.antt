-- ===== src/Framing.antt =====
-- What `tokio_util`'s `Framed` asks of a `Decoder` (the codecs of src/fire.rs and of
-- src/servers/tunnel.rs), as an interface. `Framed` appends what it receives to a buffer and calls
-- `decode` until that gives no frame; `Drains` is that loop.
pub mod Outcomes
use pocket_relay_client_shar.Prelude.{
  ℕ, zero, suc, ◌<◌, ◌≤◌, ◌≡◌, ◌++◌, refl, sym, ◌∙◌, Option, none, some, List, [], ◌∷◌, ◌≢◌, subst,
  ok-injective, append_assoc, append-nil, Outcome, ok, arith,
}

-- A decoder's step: the frame if there is one, the codec's state, and the bytes that are left.
abbrev pub Decode : Type 0 → Type 0 → Type 0
Decode State Item = State → List ℕ → Outcome (Option Item × State × List ℕ)

-- A decoder that stopped with no frame goes on where it stopped; one that gave a frame is done.
abbrev pub resume :
    {State Item : Type 0}
    → Decode State Item
    → Option Item
    → State
    → List ℕ
    → Outcome (Option Item × State × List ℕ)
resume decode none s src = decode s src
resume decode (some f) s src = ok (some f, s, src)

-- A frame leaves less to do.
abbrev pub Shrinks : {Item : Type 0} → Option Item → ℕ → ℕ → Type 0
Shrinks none m n = Unit {0}
Shrinks (some f) m n = m < n

pub Shrinks-mono :
    {Item : Type 0} (o : Option Item) (a b c : ℕ) → b ≤ c → Shrinks o a b → Shrinks o a c
Shrinks-mono none a b c h m = tt
Shrinks-mono (some f) a b c h m = omega arith

-- `decode` does not panic, does not look at later bytes, and uses something up for each frame.
abbrev pub ResumesAt :
    {State Item : Type 0} → Decode State Item → (State → List ℕ → ℕ) → State → List ℕ → Type 0
ResumesAt {State} {Item} decode measure s src =
    (o : Option Item) × (t : State) × (rest : List ℕ) × (decode s src ≡ ok (o, t, rest))
    × ((more : List ℕ) → decode s (src ++ more) ≡ resume decode o t (rest ++ more))
    × Shrinks o (measure t rest) (measure s src)

abbrev pub Resumes : {State Item : Type 0} → Decode State Item → (State → List ℕ → ℕ) → Type 0
Resumes {State} decode measure = (s : State) (src : List ℕ) → ResumesAt decode measure s src

module _ {State Item : Type 0} (decode : Decode State Item) where
  -- From state `s` and the bytes `src` come the frames; `t` and `rest` are left in the end.
  pub data Drains (t : State) (rest : List ℕ) : State → List ℕ → List Item → Type 0 where
    idle : {s : State} {src : List ℕ} → decode s src ≡ ok (none, t, rest) → Drains t rest s src []
    frame :
        {s : State} {src : List ℕ} {f : Item} {fs : List Item} (u : State) (mid : List ℕ)
        → decode s src ≡ ok (some f, u, mid)
        → Drains t rest u mid fs
        → Drains t rest s src (f ∷ fs)

  -- The same with `chunks` that arrive later, one after the other.
  pub data Receives (t : State) (rest : List ℕ)
      : State → List ℕ → List (List ℕ) → List Item → Type 0 where
    last :
        {s : State} {src : List ℕ} {fs : List Item}
        → Drains t rest s src fs
        → Receives t rest s src [] fs
    chunk :
        {s : State} {src c : List ℕ} {cs : List (List ℕ)} {hs : List Item} (fs gs : List Item)
        (u : State) (mid : List ℕ)
        → Drains u mid s src fs
        → Receives t rest u (mid ++ c) cs gs
        → hs ≡ fs ++ gs
        → Receives t rest s src (c ∷ cs) hs

abbrev pub concat : List (List ℕ) → List ℕ
concat [] = []
concat (c ∷ cs) = c ++ concat cs

module _ {State Item : Type 0} (decode : Decode State Item) (measure : State → List ℕ → ℕ)
    (dec : Resumes decode measure) where
  resume_lem :
      (s : State) (src : List ℕ) (o : Option Item) (t : State) (rest : List ℕ)
      → decode s src ≡ ok (o, t, rest)
      → (more : List ℕ) → decode s (src ++ more) ≡ resume decode o t (rest ++ more)
  resume_lem s src o t rest h more =
      let (o', t', r', e, k, _) = dec s src in
      subst (λ p. decode s (src ++ more) ≡ resume decode p.0 p.1 (p.2 ++ more))
        (ok-injective (sym e ∙ h)) (k more)

  Drained : State → List ℕ → Type 0
  Drained s src = (t : State) × (rest : List ℕ) × (fs : List Item) × Drains decode t rest s src fs

  drained :
      (s : State) (src : List ℕ) (o : Option Item) (u : State) (mid : List ℕ)
      → decode s src ≡ ok (o, u, mid)
      → (o ≢ none → Drained u mid)
      → Drained s src
  unfolding Drained
  drained s src none u mid e k = (u, mid, [], idle e)
  drained s src (some f) u mid e k =
      let (t, rest, fs, d) = k (λ q. cc) in (t, rest, f ∷ fs, frame u mid e d)

  drains_within : (n : ℕ) (s : State) (src : List ℕ) → measure s src < n → Drained s src
  drains_within zero s src h = elim h [ ]
  drains_within (suc n) s src h =
      let (o, u, mid, e, _, m) = dec s src in
      drained s src o u mid e (λ q. drains_within n u mid (shrinks o q m h))
    where
      shrinks : {a b : ℕ} (o : Option Item) → o ≢ none → Shrinks o a b → b < suc n → a < n
      shrinks none q m h = absurd (q refl)
      shrinks (some f) q m h = omega arith

  -- Every buffer is used up in finitely many calls, none of which panics.
  pub Drains-total :
      (s : State) (src : List ℕ)
      → (t : State) × (rest : List ℕ) × (fs : List Item) × Drains decode t rest s src fs
  unfolding Drained
  Drains-total s src = drains_within (suc (measure s src)) s src (omega arith)

  -- Bytes that come after the buffer was used up go on where it stopped.
  pub Drains-append :
      {u t : State} {mid rest : List ℕ} {s : State} {src : List ℕ} {fs gs : List Item}
      (more : List ℕ)
      → Drains decode u mid s src fs
      → Drains decode t rest u (mid ++ more) gs
      → Drains decode t rest s (src ++ more) (fs ++ gs)
  Drains-append {s} {src = src} more (idle e) (idle e') =
      idle (resume_lem s src none _ _ e more ∙ e')
  Drains-append {s} {src = src} more (idle e) (frame v m e' d) =
      frame v m (resume_lem s src none _ _ e more ∙ e') d
  Drains-append {s} {src = src} more (frame {f = f} v m e d) d' =
      frame v (m ++ more) (resume_lem s src (some f) v m e more) (Drains-append more d d')

  -- However the bytes are cut into chunks, the frames are those of the whole.
  pub Receives-concat :
      {t : State} {rest : List ℕ} {s : State} {src : List ℕ} {cs : List (List ℕ)} {fs : List Item}
      → Receives decode t rest s src cs fs
      → Drains decode t rest s (src ++ concat cs) fs
  Receives-concat {src = src} (last d) = rw (append-nil src) d
  Receives-concat {src = src} (chunk {c = c} {cs = cs} fs gs u mid d r e) = rw e (
      Drains-append (c ++ concat cs) d (rw (append_assoc mid c (concat cs)) at (Receives-concat r)))

  -- A buffer gives one list of frames.
  pub Drains-unique :
      {t u : State} {rest left : List ℕ} {s : State} {src : List ℕ} {fs gs : List Item}
      → Drains decode t rest s src fs
      → Drains decode u left s src gs
      → (fs ≡ gs) × (t ≡ u) × (rest ≡ left)
  Drains-unique (idle e) (idle e') = ground (arith, sym e ∙ e')
  Drains-unique (idle e) (frame v m e' d) = cc (sym e ∙ e')
  Drains-unique (frame v m e d) (idle e') = cc (sym e ∙ e')
  Drains-unique {u = u} {left = left} (frame v m e d) (frame {fs = gs} v' m' e' d') =
      let q = ok-injective (sym e' ∙ e) in
      let (a, b, c) = Drains-unique d (subst (λ p. Drains decode u left p.1 p.2 gs) q d') in
      (cc (q, a), b, c)

  -- Whatever the chunks are, the loop comes to rest on them.
  pub Receives-total :
      (s : State) (src : List ℕ) (cs : List (List ℕ))
      → (t : State) × (rest : List ℕ) × (fs : List Item) × Receives decode t rest s src cs fs
  Receives-total s src [] = let (t, rest, fs, d) = Drains-total s src in (t, rest, fs, last d)
  Receives-total s src (c ∷ cs) =
      let (u, mid, fs, d) = Drains-total s src in
      let (t, rest, gs, r) = Receives-total u (mid ++ c) cs in
      (t, rest, fs ++ gs, chunk fs gs u mid d r refl)

  -- Two ways to cut the same bytes give the same frames.
  pub Receives-unique :
      {t u : State} {rest left : List ℕ} {s : State} {cs ds : List (List ℕ)} {fs gs : List Item}
      → Receives decode t rest s [] cs fs
      → Receives decode u left s [] ds gs
      → concat cs ≡ concat ds
      → (fs ≡ gs) × (t ≡ u) × (rest ≡ left)
  Receives-unique {t = t} {rest = rest} {s = s} {fs = fs} r r' e =
      Drains-unique (subst (λ b. Drains decode t rest s b fs) e (Receives-concat r))
        (Receives-concat r')

  Receives-subst :
      {t u : State} {rest left : List ℕ} {fs gs : List Item} {s : State} {ds : List (List ℕ)}
      → (gs ≡ fs) × (u ≡ t) × (left ≡ rest)
      → Receives decode u left s [] ds gs
      → Receives decode t rest s [] ds fs
  Receives-subst {t} {u} {rest} {left} {fs} {gs} {s} {ds} (a, b, c) r =
      subst (λ g. Receives decode t rest s [] ds g) a
        (subst (λ v. Receives decode v rest s [] ds gs) b
          (subst (λ l. Receives decode u l s [] ds gs) c r))

  -- What a whole buffer gives, its chunks give too.
  pub Receives-concat_inv :
      {t : State} {rest : List ℕ} {s : State} {fs : List Item} (cs : List (List ℕ))
      → Drains decode t rest s (concat cs) fs
      → Receives decode t rest s [] cs fs
  Receives-concat_inv {t} {rest} {s} {fs} cs d =
      let (u, left, gs, r) = Receives-total s [] cs in
      Receives-subst (Drains-unique (Receives-concat r) d) r
