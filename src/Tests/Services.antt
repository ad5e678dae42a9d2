-- ===== src/Tests/Services.antt =====
-- The handshake and the reconnect loops of src/servers/tunnel.rs and src/servers/udp_tunnel.rs, and
-- the task collection of src/servers/mod.rs, on concrete inputs.
use pocket_relay_client_shar.Prelude.{ℕ, zero, suc, ◌+◌, ◌≡◌, ◌<◌, refl, some, List, [], ◌∷◌, arith}
use pocket_relay_client_shar.Reconnect
use pocket_relay_client_shar.Reconnect.{Result, reconnect}
use pocket_relay_client_shar.Reconnect.Limit.{GivesUp, reconnect-GivesUp}
use pocket_relay_client_shar.UdpTunnel.Handshake.{
  UdpTunnelError, handshake_timeout, Exchange, timed_out, received, handshake_tunnel,
  attempt_tunnel_handshake,
}
use pocket_relay_client_shar.UdpTunnel.Handshake.Retries.{
  answers, attempt_tunnel_handshake-ok, attempt_tunnel_handshake-err,
}
use pocket_relay_client_shar.Tasks.{stop_server_tasks}
use pocket_relay_client_shar.Tasks.Calls as Calls
use pocket_relay_client_shar.Tasks.Calls.{Call, spawning, adding, stopping, returned}
use pocket_relay_client_shar.Tasks.Calls.Ledger.{
  count, to_spawn, pushes, aborts, run-stop_server_tasks,
}
use pocket_relay_client_shar.Tests.Udp.{wire}

-- The third attempt works, all the others fail.
abbrev flaky : ℕ → Result ℕ (Unit {0})
flaky (suc (suc zero)) = Reconnect.ok tt
flaky n = Reconnect.err n

reconnect-GivesUp_example : GivesUp flaky 10 (reconnect flaky 10)
reconnect-GivesUp_example = reconnect-GivesUp flaky 10

reconnect_run :
    reconnect flaky 10
    ≡ Reconnect.failed
        (Reconnect.last 7)
        (1000 ∷ 2000 ∷ 1000 ∷ 1000 ∷ 2000 ∷ 3000 ∷ 4000 ∷ 5000 ∷ [])
unfolding reconnect
reconnect_run = refl

abbrev token : List ℕ
token = 116 ∷ 111 ∷ []

-- The first exchange times out, and the second gives tunnel number 12.
abbrev second_answers : List ℕ → ℕ → Exchange
second_answers datagram zero = timed_out
second_answers datagram (suc n) = received (1 ∷ 0 ∷ 12 ∷ [])

abbrev silent : List ℕ → ℕ → Exchange
silent datagram n = timed_out

first_fails :
    (j : ℕ)
    → j < 1
    → (e : UdpTunnelError) × (handshake_tunnel wire (answers wire token second_answers j)
        ≡ Reconnect.err e)
unfolding handshake_tunnel
first_fails zero h = (handshake_timeout, refl)
first_fails (suc j) h = absurd (omega arith)

second_succeeds : handshake_tunnel wire (answers wire token second_answers 1) ≡ Reconnect.ok 12
unfolding handshake_tunnel
second_succeeds = refl

silence_fails : handshake_tunnel wire timed_out ≡ Reconnect.err handshake_timeout
unfolding handshake_tunnel
silence_fails = refl

attempt_tunnel_handshake-ok_example :
    attempt_tunnel_handshake wire token second_answers ≡ some (Reconnect.ok 12, 5 ∷ [])
attempt_tunnel_handshake-ok_example =
    attempt_tunnel_handshake-ok wire token second_answers 1 12 (omega arith) first_fails
      second_succeeds

attempt_tunnel_handshake-err_example :
    attempt_tunnel_handshake wire token silent
    ≡ some (Reconnect.err handshake_timeout, 5 ∷ 10 ∷ 20 ∷ 40 ∷ 80 ∷ 160 ∷ [])
attempt_tunnel_handshake-err_example =
    attempt_tunnel_handshake-err wire token silent handshake_timeout
      (λ j h. (handshake_timeout, silence_fails)) silence_fails

-- Two tasks are spawned and the tasks are stopped at the same time: the stop takes the collection after
-- the push of the first handle and before that of the second.
abbrev together : List Call
together = spawning 3 ∷ spawning 4 ∷ stopping ∷ []

abbrev overlap : List ℕ
overlap = 0 ∷ 1 ∷ 0 ∷ 2 ∷ 2 ∷ 2 ∷ []

overlap-run : Calls.run overlap (Calls.start together) ≡ record {
  tasks = record { collection = []; aborted = 3 ∷ [] };
  calls = returned ∷ adding 4 ∷ returned ∷ [];
}
unfolding Calls.run
overlap-run = refl

run-stop_server_tasks_example :
    let w = Calls.run overlap (Calls.start together) in
    let after = stop_server_tasks w.tasks in
    (after.collection ≡ [])
    × ((h : ℕ) → count h (to_spawn together) ≡ count h after.aborted + (pushes h w + aborts h w))
run-stop_server_tasks_example = run-stop_server_tasks together overlap (tt, (tt, (tt, tt)))
