-- ===== src/Tests/Demo.antt =====
-- The theorems on the demonstrations, the snapshots and the file of a shred, applied.
use lattica.Prelude.{
  ℕ, ◌^◌, ◌<◌, true, false, Option, none, some, [], ◌∷◌, replicate, ◌≡◌, refl, arith,
}
use lattica.Prelude.Bytes.{Bytes}
use lattica.Prelude.Outcome.{ok}
use lattica.Prelude.Machine.{ascii, success}
use lattica.LtHash.{IsAccount}
use lattica.Cli.Attest.{AccountSnapshot, as_for_hash}
use lattica.Cli.Demo.{cmd_slot_demo}
use lattica.Cli.Demo.Slot.{cmd_slot_demo-success}
use lattica.Prelude.Json.{Json}
use lattica.Cli.Snapshot.{result_of, read_snapshot, fetch_snapshot}
use lattica.Cli.Snapshot.Fetched.{IsResult, IsSnapshotOf, fetch_snapshot-IsSnapshotOf}
use lattica.Cli.VerifyShred.{pubkey_from_b58}
use lattica.Tests.Fixtures.{toy_sha256-IsSha256, toy_env}
use lattica.Tests.FecSet.{toy_signer, toy_rs-IsEncoder, toy_rs-IsRecovering, toy_signer-IsKeyPair}

abbrev from_bytes : Bytes → Bytes
from_bytes seed = seed

cmd_slot_demo-success_example : cmd_slot_demo toy_env toy_signer from_bytes ≡ ok success
cmd_slot_demo-success_example =
    cmd_slot_demo-success toy_env toy_signer from_bytes toy_sha256-IsSha256 toy_rs-IsEncoder
      toy_rs-IsRecovering (toy_signer-IsKeyPair (replicate 32 0x5a))

-- Every value is the number 5, the text of an account's data and a list of itself, and none is an
-- error.
abbrev toy_json : Json
toy_json = record {
  Value = Unit {0};
  field = λ v k. tt;
  get = λ v k. none;
  is_null = λ v. false;
  as_u64 = λ v. some 5;
  as_str = λ v. some (ascii "text");
  as_bool = λ v. some true;
  as_array = λ v. some (tt ∷ []);
}

abbrev toy_b58 : Bytes → Option Bytes
toy_b58 s = some (replicate 32 7)

abbrev toy_b64 : Bytes → Option Bytes
toy_b64 s = some s

abbrev fetched : AccountSnapshot
fetched = record {
  slot = 5;
  lamports = 5;
  snapshot_data = ascii "text";
  executable = true;
  owner = replicate 32 7;
  pubkey = replicate 32 7;
}

toy_json_u64 : (v : toy_json.Value) (n : ℕ) → toy_json.as_u64 v ≡ some n → n < 2 ^ 64
toy_json_u64 v n h = let e : ◌≡◌ {A = ℕ} 5 n = cc in omega (arith, e)

fetched_lem : fetch_snapshot toy_json toy_b58 toy_b64 (ok tt) (ascii "key") ≡ ok fetched
unfolding fetch_snapshot read_snapshot result_of pubkey_from_b58
fetched_lem = refl

fetch_snapshot-IsSnapshotOf_example :
    (result : toy_json.Value) × IsResult toy_json (ok tt) result
    × (toy_json.is_null (toy_json.field result (ascii "value")) ≡ false)
    × (toy_json.as_u64 (toy_json.field (toy_json.field result (ascii "context")) (ascii "slot"))
        ≡ some fetched.slot)
    × IsSnapshotOf toy_json toy_b58 toy_b64
        (ascii "key")
        (toy_json.field result (ascii "value"))
        fetched
    × IsAccount (as_for_hash fetched)
fetch_snapshot-IsSnapshotOf_example =
    fetch_snapshot-IsSnapshotOf toy_json toy_b58 toy_b64 (ascii "key") toy_json_u64 (ok tt) fetched
      fetched_lem
