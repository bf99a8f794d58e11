-- ===== src/Tests/Cli.antt =====
-- The theorems on the command line, applied.
use lattica.Prelude.{
  ℕ, ◌+◌, ◌≤◌, true, false, Option, none, some, List, [], ◌∷◌, ◌++◌, map, replicate, ◌≡◌, ◌≢◌,
  arith,
}
use lattica.Prelude.Bytes.{Bytes}
use lattica.Prelude.Outcome.{Outcome, ok, ◌>>=◌}
use lattica.LtHash.{hash_account}
use lattica.Prelude.Machine.{ExitCode, success, failure, code_of, ascii}
use lattica.Cli.Leaders.{Schedule}
use lattica.Cli.Attest.{
  AccountSnapshot, attest_and_verify, cmd_rpc_attest, cmd_verify_slot, b_new, b_new_tampered,
}
use lattica.Cli.Attest.VerifySlot.{cmd_verify_slot_exit}
use lattica.Cli.Attest.Polling.{cmd_rpc_attest-reached}
use lattica.Tests.Fixtures.{toy_blake3, toy_blake3-IsBlake3}

abbrev leaders : List Bytes
leaders = ascii "A" ∷ ascii "A" ∷ ascii "B" ∷ ascii "A" ∷ []

abbrev schedule : Schedule
schedule start count = some (map some leaders)

cmd_verify_slot_exit_example :
    (cmd_verify_slot toy_blake3 [] (ascii "ok") ≡ ok success)
    × (hash_account toy_blake3 b_new ≢ hash_account toy_blake3 b_new_tampered
        → cmd_verify_slot toy_blake3 [] (ascii "tamper") ≡ ok (code_of 2))
    × ((mode : Bytes)
        → mode ≢ ascii "ok"
        → mode ≢ ascii "tamper"
        → cmd_verify_slot toy_blake3 [] mode ≡ ok failure)
cmd_verify_slot_exit_example = cmd_verify_slot_exit toy_blake3 toy_blake3-IsBlake3 []

abbrev snapshot : ℕ → ℕ → AccountSnapshot
snapshot slot byte = record {
  slot = slot;
  lamports = 1;
  snapshot_data = byte ∷ [];
  executable = false;
  owner = replicate 32 1;
  pubkey = replicate 32 2;
}

-- A node whose slot goes up by one with every poll.
abbrev snapshot_after : ℕ → Option AccountSnapshot
snapshot_after polls = some (snapshot (6 + polls) 5)

abbrev command : List (Option ℕ) → Outcome ⊥ (Option ExitCode)
command polls =
    cmd_rpc_attest true toy_blake3 [] (some 2) (some (snapshot 7 4)) polls snapshot_after

cmd_rpc_attest-reached_example :
    ((s : ℕ) (later : List (Option ℕ)) (snap_new : AccountSnapshot)
      → 9 ≤ s
      → snapshot_after 3 ≡ some snap_new
      → command (map some (7 ∷ 8 ∷ []) ++ (some s ∷ later))
        ≡ (attest_and_verify toy_blake3 [] (snapshot 7 4) snap_new >>= λ exit. ok (some exit)))
    × ((s : ℕ) (later : List (Option ℕ))
        → 9 ≤ s
        → snapshot_after 3 ≡ none
        → command (map some (7 ∷ 8 ∷ []) ++ (some s ∷ later)) ≡ ok (some failure))
    × ((later : List (Option ℕ))
        → command (map some (7 ∷ 8 ∷ []) ++ (none ∷ later)) ≡ ok (some failure))
    × (command (map some (7 ∷ 8 ∷ []) ++ []) ≡ ok none)
cmd_rpc_attest-reached_example =
    cmd_rpc_attest-reached true toy_blake3 [] 2 (snapshot 7 4) snapshot_after (7 ∷ 8 ∷ [])
      (omega arith) (omega arith) (omega arith) (omega arith, (omega arith, tt))
