-- ===== src/Redirector/Wire.antt =====
-- The redirector from bytes to bytes: its session between the decoding and the encoding of `FireCodec`.
use pocket_relay_client_shar.Prelude.{
  ℕ, ◌≡◌, refl, ap, ◌∙◌, List, [], ◌∷◌, ◌++◌, All, All-append, length, arith,
}
use pocket_relay_client_shar.Prelude.Bytes.{IsU16}
use pocket_relay_client_shar.Framing.{Receives, Receives-unique, concat}
use pocket_relay_client_shar.Fire.{Frame, FireCodec, default, decode, respond, response_empty}
use pocket_relay_client_shar.Fire.RoundTrip.{IsEncodable, encode_all, receive-encode_all}
use pocket_relay_client_shar.Fire.Streaming.{measure, decode-Resumes}
use pocket_relay_client_shar.Fire.Replies.{response_raw-IsEncodable}
use pocket_relay_client_shar.Redirector.{
  TdfCalls, local_instance_response, Event, packet, yes_, Written, written, finished, handle,
}
use pocket_relay_client_shar.Redirector.Session.{IsRequest, packets, empties, handle-request}

packets-append :
    (fs gs : List Frame) (later : List (Event × Written))
    → packets (fs ++ gs) later ≡ packets fs (packets gs later)
packets-append [] gs later = refl
packets-append (f ∷ fs) gs later = ap (◌∷◌ (packet f, written)) (packets-append fs gs later)

module _ (serialize : TdfCalls → List ℕ) where
  empties-IsEncodable :
      (fs : List Frame) → All IsEncodable fs → All IsEncodable (empties serialize fs)
  unfolding response_empty
  empties-IsEncodable [] v = tt
  empties-IsEncodable (f ∷ fs) v = (
    response_raw-IsEncodable f.header [] v.0.component_fits v.0.command_fits v.0.seq_fits
        (omega arith),
    empties-IsEncodable fs v.1,
  )

  -- The frames that a client gets for these requests.
  abbrev pub answers : List Frame → Frame → List Frame
  answers fs f = empties serialize fs ++ respond serialize f.header local_instance_response ∷ []

  answers-IsEncodable :
      (fs : List Frame) (f : Frame)
      → All IsEncodable fs
      → IsEncodable f
      → IsU16 (length (serialize local_instance_response))
      → All IsEncodable (answers fs f)
  unfolding respond
  answers-IsEncodable fs f v w short =
      All-append IsEncodable (empties serialize fs) _ (empties-IsEncodable fs v) (
        response_raw-IsEncodable f.header (serialize local_instance_response) w.component_fits
            w.command_fits w.seq_fits short,
        tt,
      )

  -- A client that sends, in whatever chunks, the encodings of packets that are no request for the server
  -- instance, then of such a request, and then of whatever else, is answered: when the server's loop of
  -- `decode` calls has come to rest with packets, the session on these writes frames of which the
  -- encodings, in whatever chunks they reach the client, decode there to an empty response for each of the
  -- first packets, in order, and to the response with the address of the local server; and it ends
  -- without an error. Provided that the address takes fewer than 2 ^ 16 bytes, and that the responses can
  -- be written.
  pub redirect-answers :
      (fs : List Frame) (f : Frame) (more : List Frame) (chunks : List (List ℕ)) (t : FireCodec)
      (rest : List ℕ) (frames : List Frame) (later : List (Event × Written))
      (replies : List (List ℕ))
      → All IsEncodable fs
      → IsEncodable f
      → All IsEncodable more
      → All (λ g. ¬ (IsRequest g)) fs
      → IsRequest f
      → IsU16 (length (serialize local_instance_response))
      → concat chunks ≡ encode_all (fs ++ f ∷ more) []
      → Receives decode t rest default [] chunks frames
      → concat replies ≡ encode_all (handle serialize yes_ (packets frames later)).0 []
      → Receives decode default [] default [] replies (answers fs f)
        × ((handle serialize yes_ (packets frames later)).1 ≡ finished)
  redirect-answers fs f more chunks t rest frames later replies v w m others r short sent received
        e =
      let expected =
        receive-encode_all (fs ++ f ∷ more) chunks (All-append IsEncodable fs (f ∷ more) v (w, m))
          sent in
      let (same, _, _) = Receives-unique decode measure decode-Resumes received expected refl in
      let result : handle serialize yes_ (packets frames later) ≡ (answers fs f, finished) =
        ap (λ gs. handle serialize yes_ (packets gs later)) same
        ∙ ap (handle serialize yes_) (packets-append fs (f ∷ more) later)
        ∙ handle-request serialize fs f (packets more later) others r in
      (
        receive-encode_all (answers fs f) replies (answers-IsEncodable fs f v w short)
            (e ∙ ap (λ p. encode_all p.0 []) result),
        ap (λ p. p.1) result,
      )
