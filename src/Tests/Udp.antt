-- ===== src/Tests/Udp.antt =====
-- The theorems on the daemon, applied.
use lattica.Prelude.{ℕ, true, false, Option, some, List, [], ◌∷◌, map, ◌≡◌, ◌≢◌, refl, arith}
use lattica.Prelude.Bytes.{Bytes, from_le_bytes}
use lattica.Prelude.Outcome.{ok, panic}
use lattica.Prelude.Machine.{ExitCode, success}
use lattica.Shred.Parse.Ranges.{IsBackward, parse_shred-panic_iff}
use lattica.Listener.State.{Env, Event, with_resolver}
use lattica.Shred.Variant.{data_shred, decode}
use lattica.Listener.Ingest.{Step, ingest}
use lattica.Listener.Invariant.{AllStates}
use lattica.Listener.Run.{ingest-IsStep}
use lattica.Listener.Udp.{
  datagram, waiting, panicked, Daemon, run_listener_with_resolver, on_ingest, on_recv, Reach, here,
  later, receive,
}
use lattica.Listener.Udp.Delivery.{handle_all, send_all-continues, IsDelivered, Reach-IsDelivered}
use lattica.Listener.Udp.Drain.{Reach-drains}
use lattica.Listener.Main.{line_of, printed, main_exit, main_exit-panic}
use lattica.Tests.Fixtures.{
  toy_env, toy_env-IsReedSolomon, toy_IsPacket, shred, shred-IsByte, leader, backward,
  backward-IsByte,
}

abbrev resolver : ℕ → Option Bytes
resolver slot = some leader

abbrev idle_daemon : (env : Env) → Daemon env
idle_daemon env = run_listener_with_resolver env resolver

-- After one packet.
abbrev fed : Daemon toy_env
fed = on_recv toy_env (idle_daemon toy_env) (datagram shred)

fed_reached : Reach toy_env (idle_daemon toy_env) fed
unfolding run_listener_with_resolver
fed_reached = later here (receive (idle_daemon toy_env) (datagram shred) refl (omega arith))

Reach-IsDelivered_example : IsDelivered toy_env (with_resolver resolver) fed
Reach-IsDelivered_example = Reach-IsDelivered toy_env resolver fed_reached

fed_by :
    (r : Step toy_env)
    → ingest toy_env (with_resolver resolver) shred ≡ ok r
    → (fed.inputs ≡ datagram shred ∷ [])
      × (fed.rx_open ≡ true)
      × ((raw : Bytes) → fed.task ≢ panicked raw)
unfolding run_listener_with_resolver on_recv on_ingest
fed_by r same = rw same (refl, refl, (send_all-continues r.1).1)

fresh-AllStates : AllStates (with_resolver {F = ℕ} resolver)
fresh-AllStates k s e = cc

fed_inputs :
    (fed.inputs ≡ datagram shred ∷ [])
    × (fed.rx_open ≡ true)
    × ((raw : Bytes) → fed.task ≢ panicked raw)
fed_inputs =
    let (r, same, step) =
      ingest-IsStep toy_env toy_env-IsReedSolomon (with_resolver resolver) shred fresh-AllStates
        (toy_IsPacket shred shred-IsByte) in
    fed_by r same

Reach-drains_example :
    (t : Daemon toy_env) × Reach toy_env fed t
    × (t.inputs ≡ fed.inputs)
    × (t.task ≡ waiting)
    × (handle_all toy_env (with_resolver resolver) fed.inputs ≡ ok (t.assembler, t.received))
Reach-drains_example = Reach-drains toy_env resolver fed_reached fed_inputs.1 fed_inputs.2

-- The same build with overflow checks, and a packet with its indices the wrong way round.
abbrev checked_env : Env
checked_env = record toy_env { overflow_checks = true }

abbrev stopped : Daemon checked_env
stopped = on_recv checked_env (idle_daemon checked_env) (datagram backward)

stopped_reached : Reach checked_env (idle_daemon checked_env) stopped
unfolding run_listener_with_resolver
stopped_reached =
    later here (receive (idle_daemon checked_env) (datagram backward) refl (omega arith))

backward-IsBackward : IsBackward backward
backward-IsBackward = record {
  variant = record { kind = data_shred; proof_size = 2; chained = true; resigned = false };
  well_sized = record {
    has_header = omega arith;
    tag = unfold decode in refl;
    has_payload = omega arith;
  };
  is_data = refl;
  below = unfold from_le_bytes in omega arith;
}

backward_panics : ingest checked_env (with_resolver resolver) backward ≡ panic
unfolding ingest
backward_panics =
    rw (ingest, (parse_shred-panic_iff true backward backward-IsByte).1 (refl, backward-IsBackward))
      refl

stopped_lem : (stopped.rx_open ≡ true) × (main_exit stopped ≡ some success)
unfolding run_listener_with_resolver on_recv on_ingest main_exit
stopped_lem = rw backward_panics (refl, refl)

main_exit-panic_example :
    (◌≡◌ {A = ExitCode} success success)
    × (raw : Bytes) × (ingest checked_env stopped.assembler raw ≡ panic)
    × (events : List (Event checked_env)) × (handle_all checked_env
          (with_resolver resolver)
          stopped.inputs
        ≡ ok (stopped.assembler, events))
    × (printed stopped ≡ map line_of events)
main_exit-panic_example =
    main_exit-panic checked_env resolver stopped_reached stopped_lem.0 stopped_lem.1
