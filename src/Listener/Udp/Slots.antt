-- ===== src/Listener/Udp/Slots.antt =====
-- Each slot is finalized at most once for the consumer of the daemon's channel; and how `main` of
-- crates/listener/src/main.rs comes to its end.
use lattica.Prelude.{ℕ, ◌+◌, ◌≤◌, Option, List, [], ◌∷◌, ◌++◌, All, ◌≡◌, ap, subst, arith}
use lattica.Prelude.Bytes.{Bytes}
use lattica.Prelude.Outcome.{ok, >>=-eq-ok}
use lattica.Listener.State.{Env, rejected, recv_from, FecAssembler, with_resolver}
use lattica.Listener.Ingest.{Step}
use lattica.Listener.Ingest.Steps.{IsReedSolomon}
use lattica.Listener.Invariant.{AllStates, flag_at, finalize_count, finalize_count-append}
use lattica.Listener.Run.{IsPacket, ingest-IsStep, flag_le_one}
use lattica.Listener.Udp.{Input, datagram, recv_error, Daemon, run_listener_with_resolver, Reach}
use lattica.Listener.Udp.Delivery.{handle, handle_all, IsDelivered, Reach-IsDelivered}

-- The packets among the inputs are such that the build does not overflow on them.
abbrev pub IsInput : Env → Input → Type 0
IsInput env (datagram raw) = IsPacket env raw
IsInput env (recv_error e) = Unit

module _ (env : Env) (laws : IsReedSolomon env.rs) where
  handle-count :
      (a : FecAssembler env.float.F) (i : Input) (r : Step env)
      → AllStates a
      → IsInput env i
      → handle env a i ≡ ok r
      → AllStates r.0 × ((slot : ℕ) → finalize_count slot r.1 + flag_at a slot ≤ flag_at r.0 slot)
  unfolding handle
  handle-count a (datagram raw) r all packet run =
      let (q, same, step) = ingest-IsStep env laws a raw all packet in
      let e : q ≡ r = cc in
      subst
        (λ (t : Step env).
          AllStates t.0
          × ((slot : ℕ) → finalize_count slot t.1 + flag_at a slot ≤ flag_at t.0 slot))
        e (step.states, step.once)
  handle-count a (recv_error x) r all packet run =
      let e : (a, rejected (recv_from x) ∷ []) ≡ r = cc in
      subst
        (λ (t : Step env).
          AllStates t.0
          × ((slot : ℕ) → finalize_count slot t.1 + flag_at a slot ≤ flag_at t.0 slot))
        e (all, λ slot. omega arith)

  handle_all-count :
      (a : FecAssembler env.float.F) (inputs : List Input) (r : Step env)
      → AllStates a
      → All (IsInput env) inputs
      → handle_all env a inputs ≡ ok r
      → (slot : ℕ) → finalize_count slot r.1 + flag_at a slot ≤ flag_at r.0 slot
  unfolding handle_all
  handle_all-count a [] r all good run slot =
      let e : (a, []) ≡ r = cc in
      subst (λ (t : Step env). finalize_count slot t.1 + flag_at a slot ≤ flag_at t.0 slot) e
        (omega arith)
  handle_all-count a (i ∷ is) r all good run slot =
      let (first, started, rest) = >>=-eq-ok (handle env a i) _ run in
      let (last, ended, same) = >>=-eq-ok (handle_all env first.0 is) _ rest in
      let (kept, once) = handle-count a i first all good.0 started in
      let e : (last.0, first.1 ++ last.1) ≡ r = cc in
      subst (λ (t : Step env). finalize_count slot t.1 + flag_at a slot ≤ flag_at t.0 slot) e
        (omega (
          arith,
          once slot,
          handle_all-count first.0 is last kept good.1 ended slot,
          finalize_count-append slot first.1 last.1,
        ))

  -- Whatever the order in which the task and the consumer take their steps, the consumer gets at most
  -- one event that finalizes a slot, if the build does not overflow on the packets that were handled.
  -- The erasure code is assumed not to panic.
  pub Reach-finalize_count :
      (resolver : ℕ → Option Bytes) {s : Daemon env}
      → Reach env (run_listener_with_resolver env resolver) s
      → All (IsInput env) s.inputs
      → (slot : ℕ) → finalize_count slot s.received ≤ 1
  Reach-finalize_count resolver {s} r good slot =
      let start : FecAssembler env.float.F = with_resolver resolver in
      let d : IsDelivered env start s = Reach-IsDelivered env resolver r in
      let counted =
        handle_all-count start s.inputs (s.assembler, d.events) (λ k t e. cc) good d.handled slot in
      omega (
        arith,
        counted,
        flag_le_one env laws (s.assembler.slots slot),
        finalize_count-append slot s.received d.rest,
        ap (finalize_count slot) d.ordered,
      )
