-- ===== src/Listener/Main.antt =====
-- The program of crates/listener/src/main.rs.
--
-- Base58, the parser of socket addresses and the outcome of `bind` are parameters. A printed line is
-- a value with the fields that are printed.
use lattica.Prelude.{
  ℕ, Bool, true, false, ◌&&◌, not, Option, none, some, List, [], ◌∷◌, ◌++◌, map, ◌==◌,
  if◌then◌else◌, length, ◌≡◌, ◌⊎◌, refl, sym, ap, ◌∙◌, inl, inr,
}
use mathlib.Core.List.{append-nil}
use lattica.Prelude.Bytes.{Bytes}
use lattica.Prelude.Outcome.{ok, panic}
use lattica.Prelude.Machine.{ExitCode, success, failure, ascii, strip_prefix}
use lattica.Listener.State.{
  Env, Event, FecEvent, FecAssembler, Reason, started, shred_accepted, reconstructed,
  slot_finalized, rejected, with_resolver,
}
use lattica.Listener.Ingest.{ingest}
use lattica.Listener.Udp.{
  Task, waiting, sending, reporting, returned, panicked, Daemon, run_listener_with_resolver, Reach,
}
use lattica.Listener.Udp.Delivery.{handle_all, pending, IsDelivered, Reach-IsDelivered}

-- `bs58::decode`
abbrev pub Base58 : Type 0
Base58 = Bytes → Option Bytes

abbrev pub of_32_bytes : Option Bytes → Option Bytes
of_32_bytes none = none
of_32_bytes (some v) = if not (length v == 32) then none else some v

unfoldable pub pubkey_from_b58 : Base58 → Bytes → Option Bytes
pubkey_from_b58 b58 s = of_32_bytes (b58 s)

pub data Resolver : Type 0 where
  static_leader : Bytes → Resolver
  helius : Bytes → Resolver

abbrev pub static_of : Option Bytes → Option Resolver
static_of none = none
static_of (some pk) = some (static_leader pk)

abbrev pub is_ok : Option Bytes → Bool
is_ok none = false
is_ok (some v) = true

-- The last two arms: a bare key, or nothing.
unfoldable pub parse_bare : Base58 → Bytes → Option Resolver
unfolding pubkey_from_b58
parse_bare b58 spec =
    if length spec == 44 && is_ok (b58 spec) then static_of (pubkey_from_b58 b58 spec) else none

unfoldable pub parse_resolver : Base58 → Bytes → Option Resolver
unfolding pubkey_from_b58 parse_bare strip_prefix
parse_resolver b58 spec = elim (strip_prefix (ascii "static:") spec) [
  | some pk_str ↦ static_of (pubkey_from_b58 b58 pk_str)
  | none ↦ elim (strip_prefix (ascii "helius:") spec) [
    | some url ↦ some (helius url)
    | none ↦ parse_bare b58 spec
  ]
]

-- How the program gets on: it ends, or it listens with a resolver.
pub data Start : Type 0 where
  ends : ExitCode → Start
  listens : Resolver → Start

abbrev pub start_with : Bool → Option Resolver → Start
start_with bound none = ends failure
start_with true (some resolver) = listens resolver
start_with false (some resolver) = ends failure

-- `main` up to the loop; `args` has the program's name first.
unfoldable pub main_start : Base58 → (Bytes → Bool) → Bool → List Bytes → Start
unfolding parse_resolver
main_start b58 is_addr bound (name ∷ addr ∷ spec ∷ []) =
    if is_addr addr then start_with bound (parse_resolver b58 spec) else ends failure
main_start b58 is_addr bound args = ends failure

-- A line of the program's output; `rej_line` goes to stderr.
pub data Line (F R : Type 0) : Type 0 where
  start_line : (slot : ℕ) → (fec_set : ℕ) → (root : Bytes) → Line F R
  shred_line : (slot : ℕ) → (fec_set : ℕ) → (have : ℕ) → (idx : ℕ) → Line F R
  done_line : (slot : ℕ) → (fec_set : ℕ) → (root : Bytes) → (das_conf : F) → Line F R
  slot_line :
      (slot : ℕ)
      → (n_fec_sets : ℕ) → (shreds_observed : ℕ) → (slot_das_conf : F) → (slot_root : Bytes)
      → Line F R
  rej_line : Reason R → Line F R

unfoldable pub line_of : {F R : Type 0} → FecEvent F R → Line F R
line_of (started key root) = start_line key.slot key.fec_set_index root
line_of (shred_accepted key have idx) = shred_line key.slot key.fec_set_index have idx
line_of (reconstructed key root das) = done_line key.slot key.fec_set_index root das
line_of (slot_finalized slot roots root total das) = slot_line slot (length roots) total das root
line_of (rejected reason) = rej_line reason

-- The loop over `rx.recv()`: what is printed so far, and the exit code once there is none: the channel
-- is empty and the task, which holds the sending end, has ended.
unfoldable pub printed : {env : Env} → Daemon env → List (Line env.float.F env.rs.Error)
printed s = map line_of s.received

abbrev pub ended : {E : Type 0} → Task E → Bool
ended waiting = false
ended (sending e es) = false
ended (reporting e) = false
ended returned = true
ended (panicked raw) = true

abbrev pub exit_when : {E : Type 0} → List E → Bool → Option ExitCode
exit_when [] true = some success
exit_when [] false = none
exit_when (e ∷ es) b = none

unfoldable pub main_exit : {env : Env} → Daemon env → Option ExitCode
main_exit s = exit_when s.channel (ended s.task)

-- A bare specification with neither prefix means what it means after `static:` if it has 44
-- characters and is Base58, and nothing otherwise.
parse_resolver-bare :
    (b58 : Base58) (spec : Bytes)
    → strip_prefix (ascii "static:") spec ≡ none
    → strip_prefix (ascii "helius:") spec ≡ none
    → ((length spec == 44) ≡ true
        → parse_resolver b58 spec ≡ parse_resolver b58 (ascii "static:" ++ spec))
      × ((length spec == 44) ≡ false → parse_resolver b58 spec ≡ none)
unfolding parse_resolver
parse_resolver-bare b58 spec p q = (
  λ e. rw (parse_resolver, p, q) (rw e (agree (b58 spec))),
  λ e. rw (parse_resolver, p, q) (rw e refl),
)
  where
    agree :
        (o : Option Bytes)
        → (if is_ok o then static_of (of_32_bytes o) else none) ≡ static_of (of_32_bytes o)
    agree none = refl
    agree (some v) = refl

exit_when_inv :
    {E : Type 0} (es : List E) (b : Bool) (code : ExitCode)
    → exit_when es b ≡ some code
    → (es ≡ []) × (b ≡ true) × (code ≡ success)
exit_when_inv [] true code h = (refl, refl, cc)
exit_when_inv [] false code h = cc
exit_when_inv (e ∷ es) b code h = cc

ended_inv :
    {E : Type 0} (t : Task E)
    → ended t ≡ true
    → (pending t ≡ []) × ((t ≡ returned) ⊎ ((raw : Bytes) × (t ≡ panicked raw)))
ended_inv waiting h = cc
ended_inv (sending e es) h = cc
ended_inv (reporting e) h = cc
ended_inv returned h = (refl, inl refl)
ended_inv (panicked raw) h = (refl, inr (raw, refl))

-- The program, which never drops its end of the channel, comes to its end only after `ingest` has
-- panicked on a packet. It then exits with success all the same, and it has printed a line for each
-- event of the inputs before that packet.
pub main_exit-panic :
    (env : Env) (resolver : ℕ → Option Bytes) {s : Daemon env} {code : ExitCode}
    → Reach env (run_listener_with_resolver env resolver) s
    → s.rx_open ≡ true
    → main_exit s ≡ some code
    → (code ≡ success)
      × (raw : Bytes) × (ingest env s.assembler raw ≡ panic)
      × (events : List (Event env)) × (handle_all env (with_resolver resolver) s.inputs
          ≡ ok (s.assembler, events))
      × (printed s ≡ map line_of events)
unfolding main_exit printed
main_exit-panic env resolver {s} {code} r open_end h =
    let start : FecAssembler env.float.F = with_resolver resolver in
    let d : IsDelivered env start s = Reach-IsDelivered env resolver r in
    let (empty, over, same) = exit_when_inv s.channel (ended s.task) code h in
    let (none_pending, how) = ended_inv s.task over in
    let nothing : d.rest ≡ [] =
      d.in_flight open_end ∙ ap (λ q. q ++ pending s.task) empty ∙ none_pending in
    let all_got : s.received ≡ d.events =
      sym (append-nil s.received) ∙ ap (λ q. s.received ++ q) (sym nothing) ∙ d.ordered in
    elim how [
      | inl back ↦ cc (d.returns back, open_end)
      | inr (raw, stuck) ↦
          (same, raw, d.panics raw stuck, d.events, d.handled, ap (map line_of) all_got)
    ]
