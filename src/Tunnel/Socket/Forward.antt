-- ===== src/Tunnel/Socket/Forward.antt =====
-- What a socket gives the tunnel, and that a `poll` comes to an end.
use mathlib.Core.List.{map-append}
use pocket_relay_client_shar.Prelude.{
  ℕ, zero, suc, ◌<◌, ◌≡◌, refl, sym, ap, ◌∙◌, Bool-cases, inl, inr, Option, none, some, List, [],
  ◌∷◌, ◌++◌, map, append-nil, append_assoc, length, arith,
}
use pocket_relay_client_shar.Polling.{Poll, pending, ready, Run, rests, stops, panics, starves}
use pocket_relay_client_shar.Tunnel.Socket.{
  SocketReadState, continue, World, Socket, State, is_accepted, read_next, and_then, write_loop,
  poll_read_state, read_loop, poll,
}
use pocket_relay_client_shar.Tunnel.Socket.Progress.{
  write_work, Same, WriteEnds, write_loop-WriteEnds,
}

-- The datagrams among the answers of the socket.
abbrev pub received : List (Poll (Option (List ℕ))) → List (List ℕ)
received [] = []
received (ready (some bytes) ∷ script) = bytes ∷ received script
received (_ ∷ script) = received script

pub received-append :
    (xs ys : List (Poll (Option (List ℕ)))) → received (xs ++ ys) ≡ received xs ++ received ys
received-append [] ys = refl
received-append (pending ∷ xs) ys = received-append xs ys
received-append (ready none ∷ xs) ys = received-append xs ys
received-append (ready (some bytes) ∷ xs) ys = ap (◌∷◌ bytes) (received-append xs ys)

module _ {In Out : Type 0} (wrap : ℕ → List ℕ → Out) where
  -- The datagrams of a prefix `consumed` of the socket's answers were given to the tunnel.
  pub record Gave (s t : State In Out) : Type 0 where
    pub consumed : List (Poll (Option (List ℕ)))
    pub recv_eq : s.1.recv ≡ consumed ++ t.1.recv
    pub given_eq : t.1.given ≡ s.1.given ++ map (wrap s.0.index) (received consumed)
    pub index_eq : t.0.index ≡ s.0.index

  -- The same when the socket stops: `refused` is what came after that.
  pub record GaveUp (s t : State In Out) : Type 0 where
    pub consumed : List (Poll (Option (List ℕ)))
    pub refused : List (Poll (Option (List ℕ)))
    pub recv_eq : s.1.recv ≡ consumed ++ refused
    pub given_eq : t.1.given ≡ s.1.given ++ map (wrap s.0.index) (received consumed)

  abbrev pub Forwards : State In Out → Run (State In Out) → Type 0
  Forwards s (rests t) = Gave s t
  Forwards s (stops t) = GaveUp s t
  Forwards s panics = Unit {0}
  Forwards s starves = ⊥

  Gave-trans : (s t u : State In Out) → Gave s t → Gave t u → Gave s u
  Gave-trans s t u a b = record {
    consumed = a.consumed ++ b.consumed;
    recv_eq =
        a.recv_eq
        ∙ ap (λ l. a.consumed ++ l) b.recv_eq
        ∙ sym (append_assoc a.consumed b.consumed u.1.recv);
    given_eq =
        rw
          (
            b.given_eq,
            a.given_eq,
            a.index_eq,
            received-append a.consumed b.consumed,
            map-append (wrap s.0.index) (received a.consumed) (received b.consumed),
          )
          (append_assoc s.1.given _ _);
    index_eq = b.index_eq ∙ a.index_eq;
  }

  Gave-stop : (s t u : State In Out) → Gave s t → GaveUp t u → GaveUp s u
  Gave-stop s t u a b = record {
    consumed = a.consumed ++ b.consumed;
    refused = b.refused;
    recv_eq =
        a.recv_eq
        ∙ ap (λ l. a.consumed ++ l) b.recv_eq
        ∙ sym (append_assoc a.consumed b.consumed b.refused);
    given_eq =
        rw
          (
            b.given_eq,
            a.given_eq,
            a.index_eq,
            received-append a.consumed b.consumed,
            map-append (wrap s.0.index) (received a.consumed) (received b.consumed),
          )
          (append_assoc s.1.given _ _);
  }

  Forwards-trans :
      (s t : State In Out) (r : Run (State In Out)) → Gave s t → Forwards t r → Forwards s r
  Forwards-trans s t (rests u) a b = Gave-trans s t u a b
  Forwards-trans s t (stops u) a b = Gave-stop s t u a b
  Forwards-trans s t panics a b = tt
  Forwards-trans s t starves a b = b

  abbrev AfterRead : State In Out → Poll SocketReadState × State In Out → Type 0
  AfterRead s (pending, t) = Gave s t
  AfterRead s (ready SocketReadState.stop, t) = GaveUp s t
  AfterRead s (ready continue, t) = Gave s t × (length t.1.recv < length s.1.recv)

  read_step :
      (self : Socket) (w : World In Out) (script : List (Poll (Option (List ℕ))))
      → AfterRead
          (self, record w { recv = script })
          (poll_read_state wrap (self, record w { recv = script }))
  unfolding poll_read_state
  read_step self w [] = record {
    consumed = [];
    recv_eq = refl;
    given_eq = sym (append-nil w.given);
    index_eq = refl;
  }
  read_step self w (pending ∷ script) = record {
    consumed = pending ∷ [];
    recv_eq = refl;
    given_eq = sym (append-nil w.given);
    index_eq = refl;
  }
  read_step self w (ready none ∷ script) = record {
    consumed = ready none ∷ [];
    refused = script;
    recv_eq = refl;
    given_eq = sym (append-nil w.given);
  }
  read_step self w (ready (some bytes) ∷ script) = elim (Bool-cases (is_accepted w.accepts)) [
    | inl taken ↦
        rw (poll_read_state, taken)
          (
            record {
              consumed = ready (some bytes) ∷ [];
              recv_eq = refl;
              given_eq = refl;
              index_eq = refl;
            },
            omega arith,
          )
    | inr closed ↦
        rw (poll_read_state, closed)
          (record {
            consumed = [];
            refused = ready (some bytes) ∷ script;
            recv_eq = refl;
            given_eq = sym (append-nil w.given);
          })
  ]

  read_next-Forwards :
      (fuel : ℕ) (rounds : State In Out → Run (State In Out)) (s : State In Out)
      → ((t : State In Out) → length t.1.recv < fuel → Forwards t (rounds t))
      → (r : Poll SocketReadState × State In Out) → length s.1.recv < suc fuel
      → AfterRead s r
      → Forwards s (read_next rounds r)
  unfolding read_next
  read_next-Forwards fuel rounds s h (pending, t) e v = v
  read_next-Forwards fuel rounds s h (ready SocketReadState.stop, t) e v = v
  read_next-Forwards fuel rounds s h (ready continue, t) e v =
      Forwards-trans s t (rounds t) v.0 (h t (omega (arith, v.1)))

  read_loop-Forwards :
      (fuel : ℕ) (s : State In Out) → length s.1.recv < fuel → Forwards s (read_loop wrap fuel s)
  unfolding read_loop
  read_loop-Forwards zero s h = absurd (omega arith)
  read_loop-Forwards (suc fuel) s h =
      read_next-Forwards fuel (read_loop wrap fuel) s (read_loop-Forwards fuel)
        (poll_read_state wrap s) h (read_step s.0 s.1 s.1.recv)

  Same-Gave : (s t : State In Out) → Same s t → Gave s t
  Same-Gave s t v = record {
    consumed = [];
    recv_eq = sym v.recv_eq;
    given_eq = v.given_eq ∙ sym (append-nil s.1.given);
    index_eq = v.index_eq;
  }

  and_then-Forwards :
      (fuel : ℕ) (s : State In Out) (r : Run (State In Out))
      → length s.1.recv < fuel
      → WriteEnds s r
      → Forwards s (and_then r (read_loop wrap fuel))
  and_then-Forwards fuel s (rests t) h v =
      Forwards-trans s t (read_loop wrap fuel t) (Same-Gave s t v)
        (read_loop-Forwards fuel t (omega (arith, ap length v.recv_eq)))
  and_then-Forwards fuel s (stops t) h v = record {
    consumed = [];
    refused = s.1.recv;
    recv_eq = refl;
    given_eq = v.given_eq ∙ sym (append-nil s.1.given);
  }
  and_then-Forwards fuel s panics h v = tt
  and_then-Forwards fuel s starves h v = v

  -- With fuel above the number of answers that the channel and the socket have in store, `poll` comes
  -- to an end. It gives the tunnel, in order, each datagram that it received, under the socket's own
  -- index, until it comes to rest, or until an error of the socket or the end of the tunnel.
  pub poll-Forwards :
      (payload : In → List ℕ) (fuel : ℕ) (s : State In Out)
      → write_work s.1 < fuel
      → length s.1.recv < fuel
      → Forwards s (poll payload wrap fuel s)
  unfolding poll
  poll-Forwards payload fuel s a b =
      and_then-Forwards fuel s (write_loop payload fuel s) b (write_loop-WriteEnds payload fuel s a)
