-- ===== src/Redirector.antt =====
-- src/servers/redirector.rs: the answers to a client that asks where the game server is.
pub mod Session
pub mod Wire
use pocket_relay_client_shar.Prelude.{
  ℕ, zero, suc, ◌+◌, ◌*◌, Bool, true, false, not, ◌||◌, List, [], ◌∷◌, ◌++◌, ◌==◌, if◌then◌else◌,
}
use pocket_relay_client_shar.Fire.{FrameHeader, Frame, respond, response_empty}

abbrev pub component_redirector : ℕ
component_redirector = 0x5

abbrev pub command_get_server_instance : ℕ
command_get_server_instance = 0x1

abbrev pub blaze_port : ℕ
blaze_port = 42128

-- The calls that `LocalInstanceResponse::serialize` makes of a `TdfSerializer`; a tag is its bytes.
mutual
  pub data TdfCall : Type 0 where
    tag_union_start : List ℕ → ℕ → TdfCall
    group : List ℕ → TdfCalls → TdfCall
    tag_u32 : List ℕ → ℕ → TdfCall
    tag_u16 : List ℕ → ℕ → TdfCall
    tag_bool : List ℕ → Bool → TdfCall

  pub data TdfCalls : Type 0 where
    end : TdfCalls
    then_call : TdfCall → TdfCalls → TdfCalls

abbrev pub u32_from_be_bytes : ℕ → ℕ → ℕ → ℕ → ℕ
u32_from_be_bytes a b c d = ((a * 256 + b) * 256 + c) * 256 + d

abbrev pub local_instance_response : TdfCalls
local_instance_response = then_call (tag_union_start (b'A' ∷ b'D' ∷ b'D' ∷ b'R' ∷ []) 0) (
    then_call
      (group (b'V' ∷ b'A' ∷ b'L' ∷ b'U' ∷ []) (
        then_call (tag_u32 (b'I' ∷ b'P' ∷ []) (u32_from_be_bytes 127 0 0 1))
          (then_call (tag_u16 (b'P' ∷ b'O' ∷ b'R' ∷ b'T' ∷ []) blaze_port) end)))
      (then_call (tag_bool (b'S' ∷ b'E' ∷ b'C' ∷ b'U' ∷ []) false)
        (then_call (tag_bool (b'X' ∷ b'D' ∷ b'N' ∷ b'S' ∷ []) false) end)))

-- An error of `std::io` is a number.
pub data RedirectError : Type 0 where
  accept : ℕ → RedirectError
  timeout : RedirectError
  read write : ℕ → RedirectError

-- What a wait for the next packet gives, within `REDIRECT_TIMEOUT` or not; `unlinked` is the end of
-- the stream.
pub data Event : Type 0 where
  packet : Frame → Event
  timed_out : Event
  read_failed : ℕ → Event
  unlinked : Event

-- What the network does: whether the connection is accepted, then the events, and for each packet
-- that is answered whether its answer can be written.
pub data Accepted : Type 0 where
  yes_ : Accepted
  no_ : ℕ → Accepted

pub data Written : Type 0 where
  written : Written
  write_failed : ℕ → Written

-- How `handle` ends, or that it still waits for an event.
pub data End : Type 0 where
  finished : End
  failed : RedirectError → End
  waiting : End

abbrev pub is_expected : FrameHeader → Bool
is_expected header = not (
    not (header.component == component_redirector)
    || not (header.command == command_get_server_instance))

-- `serialize_vec` of the crate `tdf` is the parameter `serialize`.
module _ (serialize : TdfCalls → List ℕ) where
  abbrev pub answer : FrameHeader → Frame
  answer header =
      if is_expected header
      then respond serialize header local_instance_response
      else response_empty header

  abbrev pub push : Frame → List Frame × End → List Frame × End
  push f (fs, e) = (f ∷ fs, e)

  -- The frames that were written, and the end. Each event comes with the result of the write that
  -- may follow it.
  unfoldable pub session : List (Event × Written) → List Frame × End
  session [] = ([], waiting)
  session ((timed_out, w) ∷ events) = ([], failed timeout)
  session ((read_failed e, w) ∷ events) = ([], failed (read e))
  session ((unlinked, w) ∷ events) = ([], finished)
  session ((packet f, write_failed e) ∷ events) = ([], failed (write e))
  session ((packet f, written) ∷ events) =
      let rest = session events in
      if is_expected f.header then (answer f.header ∷ [], finished) else push (answer f.header) rest

  unfoldable pub handle : Accepted → List (Event × Written) → List Frame × End
  unfolding session
  handle (no_ e) events = ([], failed (accept e))
  handle yes_ events = session events
