-- ===== src/Cli/Attest.antt =====
-- `cmd_verify_slot` and `cmd_rpc_attest` of crates/cli/src/main.rs.
--
-- What the RPC node answers is an argument: the first snapshot, the slots that the polling loop sees,
-- one after the other, and the second snapshot by the number of polls; `none` for an error. The public keys of the two fixed signing keys are
-- arguments too. What is printed is left out.
use lattica.Prelude.{
  ℕ, zero, suc, ◌+◌, ◌*◌, ◌/◌, Bool, true, false, not, Option, none, some, List, [], ◌∷◌, leb, ltb,
  ◌==◌, if◌then◌else◌, length, replicate, bit_xor,
}
use lattica.Prelude.Bytes.{Bytes}
use lattica.Prelude.Outcome.{Outcome, ok, err, panic, ◌>>=◌}
use lattica.LtHash.{Blake3, AccountForHash, SlotDelta, new_delta, mix}
use lattica.Attest.{
  Attestation, from_delta, AccountTransition, VerifyError, empty_transition, malformed_delta,
  delta_mismatch, verify_slot_delta,
}
use lattica.Prelude.Machine.{ExitCode, success, failure, code_of, ascii, str_eq, add_u64, mul_u64}
pub mod VerifySlot
pub mod RpcAttest
pub mod Polling

abbrev pub account : ℕ → Bytes → ℕ → ℕ → AccountForHash
account lamports account_data owner pubkey = record {
  lamports = lamports;
  account_data = account_data;
  executable = false;
  owner = replicate 32 owner;
  pubkey = replicate 32 pubkey;
}

abbrev pub a_old : AccountForHash
a_old = account 1000000 (ascii "alice-old") 1 11

abbrev pub a_new : AccountForHash
a_new = account 1000500 (ascii "alice-new") 1 11

abbrev pub b_old : AccountForHash
b_old = account 2000000 (ascii "bob-old") 2 22

abbrev pub b_new : AccountForHash
b_new = account 2000500 (ascii "bob-new") 2 22

abbrev pub created : AccountForHash
created = account 5000000 (ascii "newly-created") 3 33

abbrev pub b_new_tampered : AccountForHash
b_new_tampered = account 2000500 (ascii "BOB-new") 2 22

-- The transitions with bob's new state.
abbrev pub transitions_with : AccountForHash → List AccountTransition
transitions_with bob =
    record { old = some a_old; new = some a_new }
    ∷ record { old = some b_old; new = some bob }
    ∷ record { old = none; new = some created }
    ∷ []

unfoldable pub true_delta : Blake3 → SlotDelta
true_delta b =
    mix b (mix b (mix b new_delta (some a_old) (some a_new)) (some b_old) (some b_new)) none
      (some created)

-- `match mode`; `none` for the return with an error.
unfoldable pub transitions_of : Bytes → Option (List AccountTransition)
transitions_of mode =
    if str_eq mode (ascii "ok")
    then some (transitions_with b_new)
    else if str_eq mode (ascii "tamper")
    then some (transitions_with b_new_tampered)
    else none

-- The exit code of a verdict.
unfoldable pub exit_of : Outcome VerifyError (Unit {0}) → Outcome ⊥ ExitCode
exit_of (ok done) = ok success
exit_of (err empty_transition) = ok failure
exit_of (err malformed_delta) = ok failure
exit_of (err (delta_mismatch attested recomputed)) = ok (code_of 2)
exit_of panic = panic

unfoldable pub cmd_verify_slot : Blake3 → Bytes → Bytes → Outcome ⊥ ExitCode
cmd_verify_slot b leader_pk mode = do
  attestation ←
      from_delta 0x12345678 0 leader_pk (replicate 32 0xab) (replicate 64 0xcd) (true_delta b).delta
  elim (transitions_of mode) [
    | none ↦ ok failure
    | some transitions ↦ exit_of (verify_slot_delta b attestation transitions)
  ]

pub record AccountSnapshot : Type 0 where
  pub slot : ℕ
  pub lamports : ℕ
  pub snapshot_data : Bytes
  pub executable : Bool
  pub owner : Bytes
  pub pubkey : Bytes

unfoldable pub as_for_hash : AccountSnapshot → AccountForHash
as_for_hash s = record {
  lamports = s.lamports;
  account_data = s.snapshot_data;
  executable = s.executable;
  owner = s.owner;
  pubkey = s.pubkey;
}

-- How the polling loop ends: the slot is reached after a number of polls, a poll failed, or the
-- answers are used up and it still polls.
pub data Poll : Type 0 where
  reached : ℕ → Poll
  poll_failed : Poll
  still_polling : Poll

-- The loop after `polled` polls.
unfoldable pub poll_until : ℕ → ℕ → List (Option ℕ) → Poll
poll_until target polled [] = still_polling
poll_until target polled (none ∷ answers) = poll_failed
poll_until target polled (some s ∷ answers) =
    let rest = poll_until target (suc polled) answers in
    if leb target s then reached (suc polled) else rest

-- `tampered_data[0] ^= 0x01`
abbrev pub flip_first : Bytes → Bytes
flip_first [] = []
flip_first (x ∷ xs) = bit_xor x 1 ∷ xs

unfoldable pub tampered_account : AccountSnapshot → AccountForHash
tampered_account s = record {
  lamports = s.lamports;
  account_data = flip_first s.snapshot_data;
  executable = s.executable;
  owner = s.owner;
  pubkey = s.pubkey;
}

abbrev pub one_transition : AccountForHash → AccountForHash → List AccountTransition
one_transition old new = record { old = some old; new = some new } ∷ []

-- The verdict on the true transition has to be a success, the one on the tampered transition a
-- mismatch.
unfoldable pub exit_truthful :
    Outcome VerifyError (Unit {0}) → Outcome ⊥ ExitCode → Outcome ⊥ ExitCode
exit_truthful (ok done) next = next
exit_truthful (err e) next = ok failure
exit_truthful panic next = panic

unfoldable pub exit_tampered : Outcome VerifyError (Unit {0}) → Outcome ⊥ ExitCode
exit_tampered (ok done) = ok failure
exit_tampered (err (delta_mismatch attested recomputed)) = ok success
exit_tampered (err empty_transition) = ok failure
exit_tampered (err malformed_delta) = ok failure
exit_tampered panic = panic

-- From the second snapshot on.
unfoldable pub attest_and_verify :
    Blake3 → Bytes → AccountSnapshot → AccountSnapshot → Outcome ⊥ ExitCode
attest_and_verify b leader_pk snap_old snap_new = do
  let old = as_for_hash snap_old
  let new = as_for_hash snap_new
  let sd = mix b new_delta (some old) (some new)
  attestation ← from_delta snap_new.slot 0 leader_pk (replicate 32 0) (replicate 64 0) sd.delta
  let tampered =
      exit_tampered
        (verify_slot_delta b attestation (one_transition old (tampered_account snap_new)))
  exit_truthful (verify_slot_delta b attestation (one_transition old new))
      (if length snap_new.snapshot_data == 0 then ok success else tampered)

-- `none` for a command that still polls. What the second fetch gets depends on when it is made: it is a
-- function of the number of polls before it.
unfoldable pub cmd_rpc_attest :
    Bool
    → Blake3
    → Bytes
    → Option ℕ
    → Option AccountSnapshot
    → List (Option ℕ)
    → (ℕ → Option AccountSnapshot)
    → Outcome ⊥ (Option ExitCode)
cmd_rpc_attest overflow_checks b leader_pk none fetched_old polls fetched_new = ok (some failure)
cmd_rpc_attest overflow_checks b leader_pk (some wait_slots) fetched_old polls fetched_new =
    if not (leb 1 wait_slots) then ok (some failure) else do
      _ ← mul_u64 overflow_checks wait_slots 400
      elim fetched_old [
        | none ↦ ok (some failure)
        | some snap_old ↦ do
          target_slot ← add_u64 overflow_checks snap_old.slot wait_slots
          elim (poll_until target_slot 0 polls) [
            | still_polling ↦ ok none
            | poll_failed ↦ ok (some failure)
            | reached polled ↦ elim (fetched_new polled) [
              | none ↦ ok (some failure)
              | some snap_new ↦ do
                exit ← attest_and_verify b leader_pk snap_old snap_new
                ok (some exit)
            ]
          ]
      ]
