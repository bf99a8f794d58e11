-- ===== src/Cli/Demo.antt =====
-- `cmd_das_demo` and `cmd_slot_demo` of crates/cli/src/main.rs: a leader's builder and a listener's
-- assembler in one program.
--
-- `SigningKey::from_bytes` is a parameter. Of what is printed only the verdict is kept; that of
-- `cmd_slot_demo` is its exit code.
use lattica.Prelude.{
  ℕ, zero, suc, ◌+◌, ◌*◌, Bool, true, false, Option, none, some, List, [], ◌∷◌, leb, ◌==◌,
  if◌then◌else◌, get_elem?, take, replicate, bit_or,
}
use lattica.Prelude.Bytes.{Bytes, to_le_bytes}
use lattica.Prelude.Buffers.{join}
use lattica.Prelude.Outcome.{Outcome, ok, err, panic, ◌>>=◌}
use lattica.Prelude.Machine.{ExitCode, success, failure}
use lattica.Shred.Variant.{ShredError, shred_flag_data_complete, shred_flag_last_in_slot}
use lattica.Shred.FecSet.{Signer, FecSetParams, FecSet, build_fec_set}
use lattica.Shred.FecSet.Loops.{tabulate}
use lattica.Listener.State.{
  Env, FecEvent, Event, started, shred_accepted, reconstructed, slot_finalized, rejected,
  FecAssembler, new_assembler, das_confidence,
}
use lattica.Listener.Ingest.{Step, ingest}
pub mod Das
pub mod Slot

-- The numbers below `n` as little-endian words: `(0..n).flat_map(|i| i.to_le_bytes())`.
unfoldable pub words_below : ℕ → Bytes
words_below n = join (tabulate (to_le_bytes 4) 0 n)

-- `expect`
abbrev pub expect {ℓ κ} : {E : Type ℓ} {A : Type κ} → Outcome E A → Outcome ⊥ A
expect (ok a) = ok a
expect (err e) = panic
expect panic = panic

-- How `cmd_das_demo` ends; without a reconstruction it prints a probability.
pub data DasDemo (F : Type 0) : Type 0 where
  bad_count : DasDemo F
  recovered : DasDemo F
  not_recovered : F → DasDemo F

unfoldable pub das_exit : {F : Type 0} → DasDemo F → ExitCode
das_exit bad_count = failure
das_exit recovered = success
das_exit (not_recovered p) = success

-- The loop over the events of a packet, with the flag that it sets.
unfoldable pub note_events : {F R : Type 0} → Bool → List (FecEvent F R) → Bool
note_events flag [] = flag
note_events flag (reconstructed key root das ∷ es) = note_events true es
note_events flag (started key root ∷ es) = note_events flag es
note_events flag (shred_accepted key n i ∷ es) = note_events flag es
note_events flag (slot_finalized slot roots root total das ∷ es) = note_events flag es
note_events flag (rejected reason ∷ es) = note_events flag es

-- The loop over `0..n`, from `i` on.
unfoldable pub deliver :
    (env : Env) → List Bytes → FecAssembler env.float.F → Bool → ℕ → ℕ → Outcome ⊥ Bool
deliver env shreds a flag i zero = ok flag
deliver env shreds a flag i (suc n) = elim (get_elem? shreds i) [
  | none ↦ panic
  | some raw ↦ ingest env a raw >>= λ r. deliver env shreds r.0 (note_events flag r.1) (suc i) n
]

abbrev pub das_params : {K : Type 0} → K → FecSetParams K
das_params signing = record {
  slot = 999999;
  fec_set_index = 0;
  version = 1;
  parent_offset = 1;
  flags = 0x40;
  chained_root = replicate 32 0;
  signing_key = signing;
}

abbrev pub das_verdict : (env : Env) → ℕ → Bool → DasDemo env.float.F
das_verdict env n flag =
    let f = env.float in
    if flag then recovered else not_recovered (f.sub (f.of_nat 1) (das_confidence f n))

-- From the checked count on.
unfoldable pub run_das_demo :
    (env : Env) (signer : Signer) → signer.SigningKey → ℕ → Outcome ⊥ (DasDemo env.float.F)
run_das_demo env signer signing n = do
  fec ← expect (
      build_fec_set env.overflow_checks env.sha env.rs signer (words_below 4000)
        (das_params signing))
  flag ← deliver env fec.shreds (new_assembler (signer.verifying_key signing)) false 0 n
  ok (das_verdict env n flag)

-- `n_str.parse()` is given: `none` is its error.
unfoldable pub cmd_das_demo :
    (env : Env) (signer : Signer)
    → (Bytes → signer.SigningKey)
    → Option ℕ
    → Outcome ⊥ (DasDemo env.float.F)
cmd_das_demo env signer from_bytes none = ok bad_count
cmd_das_demo env signer from_bytes (some n) =
    if leb n 64 then run_das_demo env signer (from_bytes (replicate 32 0x4c)) n else ok bad_count

abbrev pub slot_demo_slot : ℕ
slot_demo_slot = 0xdead_0042

abbrev pub last_flags : Bool → ℕ
last_flags last = if last then bit_or shred_flag_data_complete shred_flag_last_in_slot else 0

abbrev pub slot_params : {K : Type 0} → K → ℕ → Bool → FecSetParams K
slot_params signing idx last = record {
  slot = slot_demo_slot;
  fec_set_index = idx;
  version = 1;
  parent_offset = 1;
  flags = last_flags last;
  chained_root = replicate 32 0;
  signing_key = signing;
}

-- The closure that builds a set and keeps its shreds.
unfoldable pub mk_set :
    (env : Env) (signer : Signer) → signer.SigningKey → ℕ → Bool → Outcome ⊥ (List Bytes)
mk_set env signer signing idx last = do
  fec ← expect (
      build_fec_set env.overflow_checks env.sha env.rs signer (words_below 3000)
        (slot_params signing idx last))
  ok fec.shreds

-- The loop over the events of a packet, with the count that it keeps.
unfoldable pub count_finalized : {F R : Type 0} → ℕ → List (FecEvent F R) → ℕ
count_finalized seen [] = seen
count_finalized seen (slot_finalized slot roots root total das ∷ es) = count_finalized (seen + 1) es
count_finalized seen (reconstructed key root das ∷ es) = count_finalized seen es
count_finalized seen (started key root ∷ es) = count_finalized seen es
count_finalized seen (shred_accepted key n i ∷ es) = count_finalized seen es
count_finalized seen (rejected reason ∷ es) = count_finalized seen es

-- The loop over the shreds of a set, with the assembler and the count that it leaves behind.
unfoldable pub deliver_set :
    (env : Env)
    → List Bytes
    → FecAssembler env.float.F
    → ℕ
    → Outcome ⊥ (FecAssembler env.float.F × ℕ)
deliver_set env [] asm seen = ok (asm, seen)
deliver_set env (raw ∷ raws) asm seen =
    ingest env asm raw >>= λ r. deliver_set env raws r.0 (count_finalized seen r.1)

-- The loop over the two sets.
unfoldable pub deliver_both :
    (env : Env) → Bytes → List Bytes → List Bytes → Outcome ⊥ (FecAssembler env.float.F × ℕ)
deliver_both env leader_pk set_a set_b =
    deliver_set env (take 32 set_a) (new_assembler leader_pk) 0 >>= λ r.
    deliver_set env (take 32 set_b) r.0 r.1

unfoldable pub cmd_slot_demo :
    (env : Env) (signer : Signer) → (Bytes → signer.SigningKey) → Outcome ⊥ ExitCode
cmd_slot_demo env signer from_bytes = do
  let signing = from_bytes (replicate 32 0x5a)
  set_a ← mk_set env signer signing 0 false
  set_b ← mk_set env signer signing 32 true
  r ← deliver_both env (signer.verifying_key signing) set_a set_b
  ok (if r.1 == 1 then success else failure)
