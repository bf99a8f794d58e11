-- ===== src/Tests/FecSet.antt =====
-- The theorems on `build_fec_set`, applied.
use lattica.Prelude.{
  List, zero, suc, ◌+◌, false, map, All, ◌≢◌, ℕ, ◌<◌, true, [], ◌∷◌, length, replicate, ==_iff,
  get_or, ◌≡◌, refl, arith,
}
use lattica.Prelude.Bytes.{Bytes}
use lattica.Prelude.Buffers.{join}
use lattica.Prelude.Outcome.{ok}
use lattica.Shred.Erasure.{IsEncoder}
use lattica.Shred.Verify.{verify_shred}
use lattica.Shred.FecSet.{Signer, FecSetParams, FecSet, build_fec_set}
use lattica.Shred.FecSet.Loops.{tabulate}
use lattica.Shred.FecSet.Build.{IsParams}
use lattica.Shred.FecSet.Results.{IsKeyPair}
use lattica.Shred.FecSet.RoundTrip.{result_of, build_fec_set-IsVerified}
use lattica.Shred.FecSet.Payload.{payload_part, build_fec_set-payload}
use lattica.Shred.FecSet.Loops.{All-tabulate}
use lattica.Listener.State.{reconstruct, new_assembler}
use lattica.Listener.Run.{ingest_all}
use lattica.Listener.Ingest.Complete.{IsRecovering}
use lattica.Listener.Ingest.Exactly.{IsRecovery}
use lattica.Listener.Ingest.Packets.{AllDifferent}
use lattica.Listener.Ingest.Recovery.{build_fec_set-reconstructed}
use lattica.Listener.Ingest.TwoSets.{IsFinalized}
use lattica.Listener.Ingest.Slot.{next_params, build_fec_set-IsFinalized}
use lattica.Cli.Demo.Das.{numbers}
use lattica.Cli.Demo.Slot.{first_data}
use lattica.Tests.Fixtures.{toy_sha256, toy_sha256-IsSha256, toy_ed25519, toy_env}

-- A signature repeats the first byte of the key.
abbrev pub toy_signer : Signer
toy_signer = record {
  SigningKey = Bytes;
  sign = λ key m. replicate 64 (get_or key 0 0);
  verifying_key = λ key. key;
}

abbrev key : Bytes
key = 7 ∷ []

abbrev params : FecSetParams Bytes
params = record {
  slot = 5;
  fec_set_index = 96;
  version = 3;
  parent_offset = 1;
  flags = 0x40;
  chained_root = replicate 32 9;
  signing_key = key;
}

params-IsParams : IsParams params
params-IsParams = record {
  slot_range = omega arith;
  index_range = omega arith;
  version_range = omega arith;
  root_len = refl;
}

pub toy_rs-IsEncoder : IsEncoder toy_env.rs
toy_rs-IsEncoder = record {
  codec = tt;
  new-ok = refl;
  encodes = λ n shards blank nonempty h k all blanks. (blank, refl, k, blanks);
}

toy_sig_len : (m : Bytes) → length (toy_signer.sign key m) ≡ 64
toy_sig_len m = refl

pub toy_signer-IsKeyPair : (k : Bytes) → IsKeyPair toy_ed25519 toy_signer k
toy_signer-IsKeyPair k = record {
  public = k;
  decodes = refl;
  length-sign = λ m. refl;
  signs = λ m. (replicate 64 (get_or k 0 0), refl, (==_iff (get_or k 0 0) (get_or k 0 0)).1 refl);
}

abbrev payload : Bytes
payload = 1 ∷ 2 ∷ 3 ∷ []

build_fec_set-IsVerified_example :
    (set : FecSet) × (build_fec_set true toy_sha256 toy_env.rs toy_signer payload params ≡ ok set)
    × (length set.shreds ≡ 64)
    × ((i : ℕ)
        → i < 64
        → verify_shred true toy_sha256 toy_ed25519 (get_or set.shreds i []) set.leader_pubkey
          ≡ ok (result_of params set.merkle_root i))
build_fec_set-IsVerified_example =
    build_fec_set-IsVerified true toy_sha256 toy_env.rs toy_signer payload params
      toy_sha256-IsSha256 toy_rs-IsEncoder params-IsParams (omega arith) toy_sig_len toy_ed25519
      (toy_signer-IsKeyPair key)

build_fec_set-payload_example :
    (set : FecSet) × (build_fec_set true toy_sha256 toy_env.rs toy_signer payload params ≡ ok set)
    × (join (tabulate (λ i. payload_part (get_or set.shreds i [])) 0 32) ≡ payload)
build_fec_set-payload_example =
    build_fec_set-payload true toy_sha256 toy_env.rs toy_signer payload params toy_sha256-IsSha256
      toy_rs-IsEncoder params-IsParams (omega arith) toy_sig_len

pub toy_rs-IsRecovering : IsRecovering toy_env.rs
toy_rs-IsRecovering = record {
  recovers = λ shards count places enough. (shards, unfold reconstruct in refl);
}

-- The coding shreds alone.
abbrev coding_indices : List ℕ
coding_indices = tabulate (λ k. 32 + k) 0 32

coding_indices_low : All (λ i. i < 64) coding_indices
coding_indices_low = All-tabulate (λ i. i < 64) (λ k. 32 + k) 0 32 (λ k lo hi. omega arith)

different_from : (i n : ℕ) → AllDifferent (tabulate (λ k. 32 + k) i n)
different_from i zero = tt
different_from i (suc n) = (
  All-tabulate (λ j. j ≢ 32 + i) (λ k. 32 + k) (suc i) n (λ k lo hi e. absurd (omega (arith, e))),
  different_from (suc i) n,
)

build_fec_set-reconstructed_example :
    (set : FecSet) × (build_fec_set false toy_sha256 toy_env.rs toy_signer payload params ≡ ok set)
    × IsRecovery toy_env
        (record { slot = 5; fec_set_index = 96 })
        set.merkle_root
        32
        (ingest_all toy_env
          (new_assembler set.leader_pubkey)
          (map (λ i. get_or set.shreds i []) coding_indices))
build_fec_set-reconstructed_example =
    build_fec_set-reconstructed toy_env toy_signer payload params toy_sha256-IsSha256
      toy_rs-IsEncoder toy_rs-IsRecovering params-IsParams (omega arith) (toy_signer-IsKeyPair key)
      coding_indices coding_indices_low (different_from 0 32)

next_params-IsParams : IsParams (next_params params 128 0xc0 (replicate 32 4))
next_params-IsParams = record {
  slot_range = omega arith;
  index_range = omega arith;
  version_range = omega arith;
  root_len = refl;
}

build_fec_set-IsFinalized_example :
    (set set_b : FecSet) × (build_fec_set false toy_sha256 toy_env.rs toy_signer payload params
      ≡ ok set)
    × (build_fec_set false toy_sha256 toy_env.rs toy_signer
          (8 ∷ 9 ∷ [])
          (next_params params 128 0xc0 (replicate 32 4))
        ≡ ok set_b)
    × IsFinalized toy_env key 5 set.merkle_root set_b.merkle_root
        (map (λ i. get_or set.shreds i []) (numbers 0 32))
        (map (λ i. get_or set_b.shreds i []) (numbers 0 32))
build_fec_set-IsFinalized_example =
    build_fec_set-IsFinalized toy_env toy_signer payload (8 ∷ 9 ∷ []) params 128 0xc0
      (replicate 32 4) toy_sha256-IsSha256 toy_rs-IsEncoder toy_rs-IsRecovering params-IsParams
      next_params-IsParams (omega arith) (omega arith) (omega arith) refl refl
      (toy_signer-IsKeyPair key) (numbers 0 32) (numbers 0 32) first_data first_data
