-- ===== src/Tunnel/Pool/Stages.antt =====
-- The four calls of `start`, when one of them goes on.
use mathlib.Core.List.{Perm}
use mathlib.Core.List.Perm
use pocket_relay_client_shar.Prelude.{
  ℕ, zero, suc, ◌≡◌, refl, sym, ap, ◌∙◌, subst, some, List, [], ◌∷◌, map, length, get_elem?,
  set_elem,
}
use pocket_relay_client_shar.Tunnel.Pool.{Start, SocketHandle, Stage, binding, connecting, started}

abbrev pub start_of : Stage → Start
start_of (binding start) = start
start_of (connecting start) = start
start_of (started handle) = handle.start

-- The tasks of the sockets that are started.
abbrev pub live : List Stage → List ℕ
live [] = []
live (binding start ∷ stages) = live stages
live (connecting start ∷ stages) = live stages
live (started handle ∷ stages) = handle.task ∷ live stages

pub set-starts :
    (stages : List Stage) (i : ℕ) (old next : Stage)
    → get_elem? stages i ≡ some old
    → start_of next ≡ start_of old
    → map start_of (set_elem stages i next) ≡ map start_of stages
set-starts [] i old next found same = refl
set-starts (stage ∷ stages) zero old next found same =
    let e : stage ≡ old = cc found in
    let s : start_of next ≡ start_of stage = same ∙ ap start_of (sym e) in
    ap (λ x. x ∷ map start_of stages) s
set-starts (stage ∷ stages) (suc i) old next found same =
    ap (◌∷◌ (start_of stage)) (set-starts stages i old next found same)

pub set_same :
    (stages : List Stage) (i : ℕ) (old : Stage)
    → get_elem? stages i ≡ some old
    → set_elem stages i old ≡ stages
set_same [] i old found = refl
set_same (stage ∷ stages) zero old found = cc found
set_same (stage ∷ stages) (suc i) old found = ap (◌∷◌ stage) (set_same stages i old found)

pub live-set_connecting :
    (stages : List Stage) (i : ℕ) (start : Start)
    → get_elem? stages i ≡ some (binding start)
    → live (set_elem stages i (connecting start)) ≡ live stages
live-set_connecting [] i start found = refl
live-set_connecting (stage ∷ stages) zero start found =
    let e : stage ≡ binding start = cc found in ap (λ x. live (x ∷ stages)) (sym e)
live-set_connecting (binding s ∷ stages) (suc i) start found =
    live-set_connecting stages i start found
live-set_connecting (connecting s ∷ stages) (suc i) start found =
    live-set_connecting stages i start found
live-set_connecting (started h ∷ stages) (suc i) start found =
    ap (◌∷◌ h.task) (live-set_connecting stages i start found)

-- One task more: at some place among those of the sockets that are started.
abbrev pub Gains : List ℕ → List ℕ → ℕ → Type 0
Gains old next task = Perm next (task ∷ old) × (length next ≡ suc (length old))

pub live-set_started :
    (stages : List Stage) (i : ℕ) (start : Start) (handle : SocketHandle)
    → get_elem? stages i ≡ some (connecting start)
    → Gains (live stages) (live (set_elem stages i (started handle))) handle.task
live-set_started [] i start handle found = absurd (cc found)
live-set_started (stage ∷ stages) zero start handle found =
    let e : stage ≡ connecting start = cc found in
    subst (λ x. Gains (live (x ∷ stages)) (handle.task ∷ live stages) handle.task) (sym e)
      (Perm.refl _, refl)
live-set_started (binding s ∷ stages) (suc i) start handle found =
    live-set_started stages i start handle found
live-set_started (connecting s ∷ stages) (suc i) start handle found =
    live-set_started stages i start handle found
live-set_started (started h ∷ stages) (suc i) start handle found =
    let (p, n) = live-set_started stages i start handle found in
    (Perm.trans (Perm.cons h.task p) (Perm.swap _ _ _), ap suc n)
