-- ===== src/Listener/Udp.antt =====
-- The daemon of crates/listener/src/udp.rs: the task that `run_listener_with_resolver` spawns, its
-- channel, and the consumer that holds the other end.
--
-- What the socket does is chosen by the environment: a datagram in the buffer, or the text of an
-- error. The task and the consumer take their steps in any order. `send` waits while the channel is
-- full.
use lattica.Prelude.{
  ℕ, ◌≤◌, ◌<◌, Bool, true, false, Option, none, some, List, [], ◌∷◌, ◌++◌, length, ◌≡◌,
}
use lattica.Prelude.Bytes.{Bytes}
use lattica.Prelude.Outcome.{Outcome, ok, err, panic}
use lattica.Listener.State.{Env, Event, rejected, recv_from, FecAssembler, with_resolver}
use lattica.Listener.Ingest.{Step, ingest}
pub mod Delivery
pub mod Drain
pub mod Slots

abbrev pub recv_buf : ℕ
recv_buf = 2048

-- `mpsc::channel(1024)`
abbrev pub channel_capacity : ℕ
channel_capacity = 1024

-- What `recv_from` returns.
pub data Input : Type 0 where
  datagram : Bytes → Input
  recv_error : Bytes → Input

-- No more bytes than the buffer holds.
abbrev pub Fits : Input → Type 0
Fits (datagram raw) = length raw ≤ recv_buf
Fits (recv_error e) = Unit

-- Where the task is: in `recv_from`; in the loop over the events of a packet, with the one that is
-- being sent and those after it; in the report of an error; or ended, by `return` or by the panic of
-- `ingest` on a packet.
pub data Task (E : Type 0) : Type 0 where
  waiting : Task E
  sending : E → List E → Task E
  reporting : E → Task E
  returned : Task E
  panicked : Bytes → Task E

-- `received` is what the consumer has got so far and `inputs` what the task has handled.
pub record Daemon (env : Env) : Type 0 where
  pub assembler : FecAssembler env.float.F
  pub task : Task (Event env)
  pub channel : List (Event env)
  pub rx_open : Bool
  pub received : List (Event env)
  pub inputs : List Input

unfoldable pub run_listener_with_resolver : (env : Env) → (ℕ → Option Bytes) → Daemon env
run_listener_with_resolver env resolver = record {
  assembler = with_resolver resolver;
  task = waiting;
  channel = [];
  rx_open = true;
  received = [];
  inputs = [];
}

-- `run_listener`, with a single static leader.
unfoldable pub run_listener : (env : Env) → Bytes → Daemon env
unfolding run_listener_with_resolver
run_listener env leader_pubkey = run_listener_with_resolver env (λ slot. some leader_pubkey)

-- The loop over the events, from the first of those left.
unfoldable pub send_all : {E : Type 0} → List E → Task E
send_all [] = waiting
send_all (e ∷ es) = sending e es

unfoldable pub on_ingest : (env : Env) → Daemon env → Bytes → Outcome ⊥ (Step env) → Daemon env
on_ingest env s raw panic = record s { task = panicked raw }
on_ingest env s raw (err e) = elim e [ ]
on_ingest env s raw (ok (a, events)) = record s {
  assembler = a;
  task = send_all events;
  inputs = s.inputs ++ (datagram raw ∷ []);
}

-- The two arms of the `match` on `recv_from`.
unfoldable pub on_recv : (env : Env) → Daemon env → Input → Daemon env
on_recv env s (datagram raw) = on_ingest env s raw (ingest env s.assembler raw)
on_recv env s (recv_error e) = record s {
  task = reporting (rejected (recv_from e));
  inputs = s.inputs ++ (recv_error e ∷ []);
}

-- The event that the task sends, and what it does once that is in the channel.
unfoldable pub next_send : {E : Type 0} → Task E → Option (E × Task E)
next_send waiting = none
next_send (sending e es) = some (e, send_all es)
next_send (reporting e) = some (e, waiting)
next_send returned = none
next_send (panicked raw) = none

-- `send` on a channel whose consumer is gone: the loop over events returns, the report of an error is
-- given up.
unfoldable pub on_closed : {E : Type 0} → Task E → Task E
on_closed waiting = waiting
on_closed (sending e es) = returned
on_closed (reporting e) = waiting
on_closed returned = returned
on_closed (panicked raw) = panicked raw

-- A step of the task (`receive`, `send`, `send_fails`) or of the consumer (`consume`, `close`).
pub data Move (env : Env) : Daemon env → Daemon env → Type 0 where
  receive : (s : Daemon env) (i : Input) → s.task ≡ waiting → Fits i → Move env s (on_recv env s i)
  send :
      (s : Daemon env) (e : Event env) (next : Task (Event env))
      → next_send s.task ≡ some (e, next)
      → s.rx_open ≡ true
      → length s.channel < channel_capacity
      → Move env s (record s { task = next; channel = s.channel ++ (e ∷ []) })
  send_fails :
      (s : Daemon env) (e : Event env) (next : Task (Event env))
      → next_send s.task ≡ some (e, next)
      → s.rx_open ≡ false
      → Move env s (record s { task = on_closed s.task })
  consume :
      (s : Daemon env) (e : Event env) (rest : List (Event env))
      → s.channel ≡ e ∷ rest
      → s.rx_open ≡ true
      → Move env s (record s { channel = rest; received = s.received ++ (e ∷ []) })
  close : (s : Daemon env) → Move env s (record s { rx_open = false; channel = [] })

pub data Reach (env : Env) (start : Daemon env) : Daemon env → Type 0 where
  here : Reach env start start
  later : {s t : Daemon env} → Reach env start s → Move env s t → Reach env start t
