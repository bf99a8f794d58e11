-- ===== src/Listener/Udp/Drain.antt =====
-- No event is stuck in the daemon: the task and the consumer can always deliver what is on the way.
use lattica.Prelude.{
  ℕ, zero, suc, ◌+◌, ◌*◌, ◌≤◌, ◌<◌, true, Option, none, List, [], ◌∷◌, ◌++◌, length, length-append,
  Option-cases, ◌≡◌, ◌≢◌, ◌⊎◌, refl, sym, ap, ◌∙◌, inl, inr, arith,
}
use mathlib.Core.List.{append-nil}
use lattica.Prelude.Bytes.{Bytes}
use lattica.Prelude.Outcome.{ok}
use lattica.Listener.State.{Env, FecAssembler, with_resolver}
use lattica.Listener.Udp.{
  Task, waiting, sending, reporting, returned, panicked, Daemon, run_listener_with_resolver,
  next_send, Move, send, consume, Reach, here, later,
}
use lattica.Listener.Udp.Delivery.{
  handle_all, pending, next_send_lem, IsDelivered, Move-IsDelivered, Reach-IsDelivered,
}

Reach-first : {env : Env} {s t u : Daemon env} → Move env s t → Reach env t u → Reach env s u
Reach-first m here = later here m
Reach-first m (later r n) = later (Reach-first m r) n

Reach-keeps :
    (env : Env) (start : FecAssembler env.float.F) {s t : Daemon env}
    → IsDelivered env start s
    → Reach env s t
    → IsDelivered env start t
Reach-keeps env start d here = d
Reach-keeps env start d (later r m) = Move-IsDelivered env start m (Reach-keeps env start d r)

-- The task has not ended.
abbrev pub IsGoing : {E : Type 0} → Task E → Type 0
IsGoing t = (t ≢ returned) × ((raw : Bytes) → t ≢ panicked raw)

idle : {E : Type 0} (t : Task E) → IsGoing t → next_send t ≡ none → t ≡ waiting
unfolding next_send
idle waiting g h = refl
idle (sending e es) g h = cc
idle (reporting e) g h = cc
idle returned g h = absurd (g.0 refl)
idle (panicked raw) g h = absurd (g.1 raw refl)

List-cases : {A : Type 0} (xs : List A) → (xs ≡ []) ⊎ ((x : A) × (rest : List A) × (xs ≡ x ∷ rest))
List-cases [] = inl refl
List-cases (x ∷ rest) = inr (x, rest, refl)

-- A state in which nothing is on the way, reached by sending and consuming alone.
record IsDrained {env : Env} (s t : Daemon env) : Type 0 where
  reach : Reach env s t
  same_inputs : t.inputs ≡ s.inputs
  waits : t.task ≡ waiting
  empty : t.channel ≡ []
  still_open : t.rx_open ≡ true

module _ {env : Env} where
  step_first :
      {s t : Daemon env}
      → Move env s t
      → t.inputs ≡ s.inputs
      → (u : Daemon env) × IsDrained t u
      → (u : Daemon env) × IsDrained s u
  step_first m same (u, d) = (
    u,
    record {
      reach = Reach-first m d.reach;
      same_inputs = d.same_inputs ∙ same;
      waits = d.waits;
      empty = d.empty;
      still_open = d.still_open;
    },
  )

  -- What is left to do: an event is sent and then consumed.
  abbrev load : Daemon env → ℕ
  load s = length s.channel + 2 * length (pending s.task)

  abbrev Drains : Daemon env → Type 0
  Drains s = (t : Daemon env) × IsDrained s t

  drain_step :
      (s : Daemon env)
      → ((t : Daemon env) → load t < load s → t.rx_open ≡ true → IsGoing t.task → Drains t)
      → s.rx_open ≡ true
      → IsGoing s.task
      → Drains s
  drain_step s rec open_end going = elim (List-cases s.channel) [
    | inr (e, rest, front) ↦
        let t : Daemon env = record s { channel = rest; received = s.received ++ (e ∷ []) } in
        step_first (consume s e rest front open_end) refl
          (rec t (omega (arith, ap length front)) open_end going)
    | inl none_left ↦ elim (Option-cases (next_send s.task)) [
      | inl done ↦ (
        s,
        record {
          reach = here;
          same_inputs = refl;
          waits = idle s.task going done;
          empty = none_left;
          still_open = open_end;
        },
      )
      | inr ((e, next), sends) ↦
          let (first, no_return, no_panic, _) = next_send_lem s.task sends in
          let t : Daemon env = record s { task = next; channel = s.channel ++ (e ∷ []) } in
          step_first (send s e next sends open_end (omega (arith, ap length none_left))) refl (
            rec t
              (omega
                (arith, ap length none_left, ap length first, length-append s.channel (e ∷ [])))
              open_end (no_return, no_panic))
    ]
  ]

  drain : (n : ℕ) (s : Daemon env) → load s ≤ n → s.rx_open ≡ true → IsGoing s.task → Drains s
  drain zero s h open_end going =
      drain_step s (λ t lt k g. absurd (omega (arith, h, lt))) open_end going
  drain (suc n) s h open_end going =
      drain_step s (λ t lt k g. drain n t (omega (arith, h, lt)) k g) open_end going

-- From every state that the daemon can reach while the consumer holds its end and the task has not
-- panicked, sends of the task and receives of the consumer alone lead to a state in which the task
-- waits for the next packet and the consumer has got every event of the inputs handled so far.
pub Reach-drains :
    (env : Env) (resolver : ℕ → Option Bytes) {s : Daemon env}
    → Reach env (run_listener_with_resolver env resolver) s
    → s.rx_open ≡ true
    → ((raw : Bytes) → s.task ≢ panicked raw)
    → (t : Daemon env) × Reach env s t
      × (t.inputs ≡ s.inputs)
      × (t.task ≡ waiting)
      × (handle_all env (with_resolver resolver) s.inputs ≡ ok (t.assembler, t.received))
Reach-drains env resolver {s} r open_end no_panic =
    let start : FecAssembler env.float.F = with_resolver resolver in
    let d = Reach-IsDelivered env resolver r in
    let going : IsGoing s.task = (λ h. cc (d.returns h, open_end), no_panic) in
    let (t, x) = drain (load s) s (omega arith) open_end going in
    let e = Reach-keeps env start d x.reach in
    let nothing : e.rest ≡ [] =
      e.in_flight x.still_open ∙ ap (λ q. q ++ pending t.task) x.empty ∙ ap pending x.waits in
    let all_got : t.received ≡ e.events =
      sym (append-nil t.received) ∙ ap (λ q. t.received ++ q) (sym nothing) ∙ e.ordered in
    (
      t,
      x.reach,
      x.same_inputs,
      x.waits,
      ap (handle_all env start) (sym x.same_inputs)
          ∙ e.handled
          ∙ ap (λ es. ok (t.assembler, es)) (sym all_got),
    )
