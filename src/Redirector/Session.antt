-- ===== src/Redirector/Session.antt =====
-- A session of the redirector.
use pocket_relay_client_shar.Prelude.{
  ℕ, ◌≡◌, refl, ap, ◌∙◌, true, false, List, [], ◌∷◌, ◌++◌, All, arith,
}
use pocket_relay_client_shar.Fire.{Frame, respond, response_empty}
use pocket_relay_client_shar.Redirector.{
  TdfCalls, local_instance_response, Event, packet, timed_out, read_failed, unlinked, timeout, read,
  yes_, Written, written, write_failed, End, finished, failed, write, is_expected, push, session,
  handle,
}

-- A request of the redirector's component for the server instance.
abbrev pub IsRequest : Frame → Type 0
IsRequest f = (f.header.component ≡ 5) × (f.header.command ≡ 1)

request-expected : (f : Frame) → IsRequest f → is_expected f.header ≡ true
request-expected f h = ground arith

other-expected : (f : Frame) → ¬ (IsRequest f) → is_expected f.header ≡ false
other-expected f h = ground arith

abbrev pub packets : List Frame → List (Event × Written) → List (Event × Written)
packets [] events = events
packets (f ∷ fs) events = (packet f, written) ∷ packets fs events

module _ (serialize : TdfCalls → List ℕ) where
  abbrev pub empties : List Frame → List Frame
  empties [] = []
  empties (f ∷ fs) = response_empty f.header ∷ empties fs

  session-others :
      (fs : List Frame) (events : List (Event × Written))
      → All (λ f. ¬ (IsRequest f)) fs
      → session serialize (packets fs events)
        ≡ ((empties fs) ++ (session serialize events).0, (session serialize events).1)
  unfolding session
  session-others [] events h = refl
  session-others (f ∷ fs) events h =
      rw (session, other-expected f h.0)
        (ap (push serialize (response_empty f.header)) (session-others fs events h.1))

  -- A client that is accepted gets an empty response to each packet that is no request for the server
  -- instance, in order; the first such request gets the address of the local server, and the session
  -- ends there, whatever comes later.
  pub handle-request :
      (fs : List Frame) (f : Frame) (later : List (Event × Written))
      → All (λ g. ¬ (IsRequest g)) fs
      → IsRequest f
      → handle serialize yes_ (packets fs ((packet f, written) ∷ later))
        ≡ (empties fs ++ respond serialize f.header local_instance_response ∷ [], finished)
  unfolding handle
  handle-request fs f later h r =
      session-others fs ((packet f, written) ∷ later) h ∙ rw (session, request-expected f r)

  -- After the empty responses to other packets, a timeout, an error of the stream, an answer that cannot
  -- be written, each end the session with the error that belongs to it, and the end of the stream ends
  -- it without one; nothing more is written.
  pub handle-end :
      (fs : List Frame) (f : Frame) (e : ℕ) (w : Written) (later : List (Event × Written))
      → All (λ g. ¬ (IsRequest g)) fs
      → let ends = λ (event : Event × Written) (end : End).
        handle serialize yes_ (packets fs (event ∷ later)) ≡ (empties fs ++ [], end) in
        ends (timed_out, w) (failed timeout)
        × ends (read_failed e, w) (failed (read e))
        × ends (packet f, write_failed e) (failed (write e))
        × ends (unlinked, w) finished
  unfolding handle session
  handle-end fs f e w later h = (
    session-others fs ((timed_out, w) ∷ later) h,
    session-others fs ((read_failed e, w) ∷ later) h,
    session-others fs ((packet f, write_failed e) ∷ later) h,
    session-others fs ((unlinked, w) ∷ later) h,
  )
