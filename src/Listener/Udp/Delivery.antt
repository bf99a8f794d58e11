-- ===== src/Listener/Udp/Delivery.antt =====
-- What the consumer of the daemon's channel gets: the events of the assembler, in order.
use lattica.Prelude.{
  ℕ, ◌≤◌, true, false, Option, some, List, [], ◌∷◌, ◌++◌, length, length-append, ◌≡◌, ◌≢◌, refl,
  sym, ap, ap₂, ◌∙◌, arith,
}
use mathlib.Core.List.{append-nil, append_assoc}
use lattica.Prelude.Bytes.{Bytes}
use lattica.Prelude.Outcome.{Outcome, ok, err, panic, ◌>>=◌, >>=-eq-ok}
use lattica.Listener.State.{Env, Event, rejected, recv_from, FecAssembler, with_resolver}
use lattica.Listener.Ingest.{Step, after_events, ingest}
use lattica.Listener.Udp.{
  channel_capacity, Input, datagram, recv_error, Task, waiting, sending, reporting, returned,
  panicked, Daemon, run_listener_with_resolver, send_all, on_ingest, on_recv, next_send, on_closed,
  Move, receive, send, send_fails, consume, close, Reach, here, later,
}

-- What an input does to the assembler, and the events it is worth.
unfoldable pub handle : (env : Env) → FecAssembler env.float.F → Input → Outcome ⊥ (Step env)
handle env a (datagram raw) = ingest env a raw
handle env a (recv_error e) = ok (a, rejected (recv_from e) ∷ [])

-- Inputs handled one after the other.
unfoldable pub handle_all :
    (env : Env) → FecAssembler env.float.F → List Input → Outcome ⊥ (Step env)
handle_all env a [] = ok (a, [])
handle_all env a (i ∷ is) = handle env a i >>= λ r. handle_all env r.0 is >>= after_events env r.1

handle_all-snoc :
    (env : Env) (a : FecAssembler env.float.F) (is : List Input) (i : Input) (r q : Step env)
    → handle_all env a is ≡ ok r
    → handle env r.0 i ≡ ok q
    → handle_all env a (is ++ (i ∷ [])) ≡ ok (q.0, r.1 ++ q.1)
unfolding handle_all
handle_all-snoc env a [] i r q run one =
    let same : r ≡ (a, []) = cc in
    let fed : handle env a i ≡ ok q = ap (λ (t : Step env). handle env t.0 i) (sym same) ∙ one in
    rw (handle_all, fed)
      (ap (λ es. ok (q.0, es)) (append-nil q.1 ∙ ap (λ (t : Step env). t.1 ++ q.1) (sym same)))
handle_all-snoc env a (j ∷ is) i r q run one =
    let (first, started, rest) = >>=-eq-ok (handle env a j) _ run in
    let (last, ended, same) = >>=-eq-ok (handle_all env first.0 is) _ rest in
    let joined : r ≡ (last.0, first.1 ++ last.1) = cc in
    let fed : handle env last.0 i ≡ ok q =
      ap (λ (t : Step env). handle env t.0 i) (sym joined) ∙ one in
    rw (started, handle_all-snoc env first.0 is i last q ended fed)
      (ap (λ es. ok (q.0, es))
        (sym (append_assoc first.1 last.1 q.1) ∙ ap (λ (t : Step env). t.1 ++ q.1) (sym joined)))

-- The events that the task has still to send.
abbrev pub pending : {E : Type 0} → Task E → List E
pending waiting = []
pending (sending e es) = e ∷ es
pending (reporting e) = e ∷ []
pending returned = []
pending (panicked raw) = []

-- What holds in every state: the events of the inputs handled so far are those that the consumer has
-- got and `rest`, which are those in the channel and those that the task has still to send as long as
-- the consumer holds its end.
pub record IsDelivered (env : Env) (start : FecAssembler env.float.F) (s : Daemon env)
    : Type 0 where
  pub events : List (Event env)
  pub rest : List (Event env)
  pub handled : handle_all env start s.inputs ≡ ok (s.assembler, events)
  pub ordered : s.received ++ rest ≡ events
  pub in_flight : s.rx_open ≡ true → rest ≡ s.channel ++ pending s.task
  pub bounded : length s.channel ≤ channel_capacity
  pub returns : s.task ≡ returned → s.rx_open ≡ false
  pub panics : (raw : Bytes) → s.task ≡ panicked raw → ingest env s.assembler raw ≡ panic

module _ {E : Type 0} where
  pending-send_all : (es : List E) → pending (send_all es) ≡ es
  unfolding send_all
  pending-send_all [] = refl
  pending-send_all (e ∷ es) = refl

  pub send_all-continues :
      (es : List E) → (send_all es ≢ returned) × ((raw : Bytes) → send_all es ≢ panicked raw)
  unfolding send_all
  send_all-continues [] = (λ h. cc, λ raw h. cc)
  send_all-continues (e ∷ es) = (λ h. cc, λ raw h. cc)

  -- The event that is sent is the first that is pending, and the task goes on.
  pub next_send_lem :
      (t : Task E) {sent : E} {next : Task E}
      → next_send t ≡ some (sent, next)
      → (pending t ≡ sent ∷ pending next)
        × (next ≢ returned)
        × ((raw : Bytes) → next ≢ panicked raw)
        × ((raw : Bytes) → on_closed t ≢ panicked raw)
  unfolding next_send on_closed
  next_send_lem waiting h = cc
  next_send_lem (sending e es) {sent} {next} h =
      let p : e ≡ sent = cc in
      let n : send_all es ≡ next = cc in
      let (a, b) = send_all-continues es in
      (
        ap₂ (λ x xs. x ∷ xs) p (sym (pending-send_all es) ∙ ap pending n),
        λ k. a (n ∙ k),
        λ raw k. b raw (n ∙ k),
        λ raw k. cc,
      )
  next_send_lem (reporting e) {sent} {next} h =
      let p : e ≡ sent = cc in
      let n : waiting ≡ next = cc in
      (ap₂ (λ x xs. x ∷ xs) p (ap pending n), λ k. cc, λ raw k. cc, λ raw k. cc)
  next_send_lem returned h = cc
  next_send_lem (panicked raw) h = cc

module _ (env : Env) (start : FecAssembler env.float.F) where
  on_events :
      (s : Daemon env) (i : Input) (a : FecAssembler env.float.F) (es : List (Event env))
      (task : Task (Event env))
      → s.task ≡ waiting
      → IsDelivered env start s
      → handle env s.assembler i ≡ ok (a, es)
      → pending task ≡ es
      → task ≢ returned
      → ((raw : Bytes) → task ≢ panicked raw)
      → IsDelivered env start
          (record s { assembler = a; task = task; inputs = s.inputs ++ (i ∷ []) })
  on_events s i a es task waits d run held no_return no_panic = record {
    events = d.events ++ es;
    rest = d.rest ++ es;
    handled = handle_all-snoc env start s.inputs i (s.assembler, d.events) (a, es) d.handled run;
    ordered = sym (append_assoc s.received d.rest es) ∙ ap (λ t. t ++ es) d.ordered;
    in_flight = λ open_end.
        ap (λ t. t ++ es)
          (d.in_flight open_end ∙ ap (λ t. s.channel ++ pending t) waits ∙ append-nil s.channel)
        ∙ ap (λ t. s.channel ++ t) (sym held);
    bounded = d.bounded;
    returns = λ h. absurd (no_return h);
    panics = λ raw h. absurd (no_panic raw h);
  }

  on_ingest-IsDelivered :
      (s : Daemon env) (raw : Bytes) (m : Outcome ⊥ (Step env))
      → ingest env s.assembler raw ≡ m
      → s.task ≡ waiting
      → IsDelivered env start s
      → IsDelivered env start (on_ingest env s raw m)
  unfolding on_ingest handle
  on_ingest-IsDelivered s raw panic run waits d = record {
    events = d.events;
    rest = d.rest;
    handled = d.handled;
    ordered = d.ordered;
    in_flight = λ open_end. d.in_flight open_end ∙ ap (λ t. s.channel ++ pending t) waits;
    bounded = d.bounded;
    returns = λ h. cc;
    panics = λ other h. ap (ingest env s.assembler) (cc) ∙ run;
  }
  on_ingest-IsDelivered s raw (err e) run waits d = elim e [ ]
  on_ingest-IsDelivered s raw (ok (a, es)) run waits d =
      let (no_return, no_panic) = send_all-continues es in
      on_events s (datagram raw) a es (send_all es) waits d run (pending-send_all es) no_return
        no_panic

  on_recv-IsDelivered :
      (s : Daemon env) (i : Input)
      → s.task ≡ waiting
      → IsDelivered env start s
      → IsDelivered env start (on_recv env s i)
  unfolding on_recv handle
  on_recv-IsDelivered s (datagram raw) waits d =
      on_ingest-IsDelivered s raw (ingest env s.assembler raw) refl waits d
  on_recv-IsDelivered s (recv_error e) waits d =
      let event = rejected (recv_from e) in
      on_events s (recv_error e) s.assembler (event ∷ []) (reporting event) waits d refl refl
        (λ h. cc) (λ raw h. cc)

  pub Move-IsDelivered :
      {s t : Daemon env} → Move env s t → IsDelivered env start s → IsDelivered env start t
  Move-IsDelivered (receive s i waits fits) d = on_recv-IsDelivered s i waits d
  Move-IsDelivered (send s e next sends open_end room) d =
      let (first, no_return, no_panic, _) = next_send_lem s.task sends in
      record {
        events = d.events;
        rest = d.rest;
        handled = d.handled;
        ordered = d.ordered;
        in_flight = λ h.
            d.in_flight open_end
            ∙ ap (λ t. s.channel ++ t) first
            ∙ sym (append_assoc s.channel (e ∷ []) (pending next));
        bounded = omega (arith, room, length-append s.channel (e ∷ []));
        returns = λ h. absurd (no_return h);
        panics = λ raw h. absurd (no_panic raw h);
      }
  Move-IsDelivered (send_fails s e next sends closed) d =
      let (_, _, _, no_panic) = next_send_lem s.task sends in
      record {
        events = d.events;
        rest = d.rest;
        handled = d.handled;
        ordered = d.ordered;
        in_flight = λ h. cc;
        bounded = d.bounded;
        returns = λ h. closed;
        panics = λ raw h. absurd (no_panic raw h);
      }
  Move-IsDelivered (consume s e rest front open_end) d = record {
    events = d.events;
    rest = rest ++ pending s.task;
    handled = d.handled;
    ordered =
        append_assoc s.received (e ∷ []) (rest ++ pending s.task)
        ∙ ap (λ t. s.received ++ t)
            (sym (ap (λ t. t ++ pending s.task) front) ∙ sym (d.in_flight open_end))
        ∙ d.ordered;
    in_flight = λ h. refl;
    bounded = omega (arith, d.bounded, ap length front);
    returns = d.returns;
    panics = d.panics;
  }
  Move-IsDelivered (close s) d = record {
    events = d.events;
    rest = d.rest;
    handled = d.handled;
    ordered = d.ordered;
    in_flight = λ h. cc;
    bounded = omega arith;
    returns = λ h. refl;
    panics = d.panics;
  }

-- In every state that the daemon can reach, the events of the packets and errors handled so far are
-- those that the consumer has got and then, as long as it holds its end of the channel, those in the
-- channel and those that the task has still to send: none is lost, repeated or moved. The channel
-- holds 1024 events at most, the task returns only after the consumer is gone, and it panics only
-- where `ingest` panics on a packet.
pub Reach-IsDelivered :
    (env : Env) (resolver : ℕ → Option Bytes) {s : Daemon env}
    → Reach env (run_listener_with_resolver env resolver) s
    → IsDelivered env (with_resolver resolver) s
unfolding run_listener_with_resolver handle_all
Reach-IsDelivered env resolver here = record {
  events = [];
  rest = [];
  handled = refl;
  ordered = refl;
  in_flight = λ h. refl;
  bounded = omega arith;
  returns = λ h. cc;
  panics = λ raw h. cc;
}
Reach-IsDelivered env resolver (later r m) =
    Move-IsDelivered env (with_resolver resolver) m (Reach-IsDelivered env resolver r)
