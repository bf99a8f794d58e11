-- ===== src/Listener/Ingest/Recovery.antt =====
-- The builder and the assembler together: shreds of a set that `build_fec_set` returned.
use lattica.Prelude.{ℕ, ◌*◌, ◌≤◌, ◌<◌, List, [], map, length, get_or, All, ◌≡◌, sym, ap, ◌∙◌, arith}
use lattica.Prelude.Bytes.{Bytes}
use lattica.Prelude.Outcome.{ok}
use lattica.Shred.Merkle.{IsSha256}
use lattica.Shred.Erasure.{IsEncoder}
use lattica.Shred.FecSet.{Signer, FecSetParams, FecSet, build_fec_set}
use lattica.Shred.FecSet.Build.{IsParams}
use lattica.Shred.FecSet.Results.{IsKeyPair}
use lattica.Listener.State.{Env, new_assembler}
use lattica.Listener.Run.{ingest_all}
use lattica.Listener.Ingest.Complete.{IsRecovering}
use lattica.Listener.Ingest.Exactly.{recovered_by, IsRecovery}
use lattica.Listener.Ingest.Fresh.{ingest_all-IsRecovery}
use lattica.Listener.Ingest.Packets.{AllDifferent, build_fec_set-Supply}

-- For a SHA-256 whose digests have 32 bytes, parameters in the range of their types with a set index of
-- at most 2 ^ 32 - 32, a payload of at most 32 times 963 bytes, a key pair whose signatures verify, and
-- an erasure code that fills parity shards of the length of its non-empty shards and recovers a set from
-- 32 of its 64 shards: fed with any different shreds of the set that `build_fec_set` returns, in any
-- order, a new assembler for the set's leader returns. It reports a set as reconstructed once if there
-- are 32 shreds or more, under the set's key and Merkle root and with the confidence of 32 shreds, and
-- never if there are fewer.
pub build_fec_set-reconstructed :
    (env : Env) (signer : Signer) (payload : Bytes) (params : FecSetParams signer.SigningKey)
    → IsSha256 env.sha
    → IsEncoder env.rs
    → IsRecovering env.rs
    → IsParams params
    → length payload ≤ 963 * 32
    → IsKeyPair env.ed signer params.signing_key
    → (indices : List ℕ) → All (λ i. i < 64) indices
    → AllDifferent indices
    → (set : FecSet) × (build_fec_set env.overflow_checks env.sha env.rs signer payload params
        ≡ ok set)
      × IsRecovery env
          (record { slot = params.slot; fec_set_index = params.fec_set_index })
          set.merkle_root
          (length indices)
          (ingest_all env
            (new_assembler set.leader_pubkey)
            (map (λ i. get_or set.shreds i []) indices))
build_fec_set-reconstructed env signer payload params laws enc recovers valid fits pair indices low
      apart =
    let (set, run, _, _, supplies) =
      build_fec_set-Supply env signer payload params laws enc valid fits pair in
    let s = supplies indices low apart in
    let recovery =
      ingest_all-IsRecovery env set.leader_pubkey
        (record { slot = params.slot; fec_set_index = params.fec_set_index }) set.merkle_root
        s.packets recovers s.valid s.apart in
    (
      set,
      run,
      record {
        result = recovery.result;
        runs = ap (ingest_all env (new_assembler set.leader_pubkey)) (sym s.raws) ∙ recovery.runs;
        reports = recovery.reports ∙ ap recovered_by s.count;
        about = λ h. recovery.about (omega (arith, h, s.count));
      },
    )
