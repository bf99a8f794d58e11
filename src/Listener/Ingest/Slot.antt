-- ===== src/Listener/Ingest/Slot.antt =====
-- The builder and the assembler together: a slot of two sets that `build_fec_set` returned.
use lattica.Prelude.{
  ℕ, ◌*◌, ◌≤◌, ◌<◌, Bool, true, false, some, List, [], ◌∷◌, map, length, get_or, All, ◌≡◌, subst,
  ◌∙◌, arith, lt→ltb,
}
use lattica.Prelude.Bytes.{Bytes}
use lattica.Prelude.Outcome.{ok}
use lattica.Shred.Merkle.{IsSha256}
use lattica.Shred.Erasure.{IsEncoder}
use lattica.Shred.Parse.{has_flag}
use lattica.Shred.Variant.{shred_flag_last_in_slot}
use lattica.Shred.Verify.{VerifiedShred, is_last_in_slot}
use lattica.Shred.FecSet.{Signer, FecSetParams, FecSet, build_fec_set}
use lattica.Shred.FecSet.Build.{IsParams}
use lattica.Shred.FecSet.Results.{IsKeyPair}
use lattica.Shred.FecSet.RoundTrip.{result_of}
use lattica.Listener.State.{FecKey, Env}
use lattica.Listener.Ingest.Complete.{IsRecovering}
use lattica.Listener.Ingest.TwoSets.{IsFinalized, ingest_all-IsFinalized}
use lattica.Listener.Ingest.Packets.{AllDifferent, Supply, build_fec_set-Supply}

-- 32 different data shreds of a set.
pub record IsDataShreds (indices : List ℕ) : Type 0 where
  pub count : length indices ≡ 32
  pub low : All (λ i. i < 32) indices
  pub apart : AllDifferent indices

below_64 : (indices : List ℕ) → All (λ i. i < 32) indices → All (λ i. i < 64) indices
below_64 [] h = tt
below_64 (i ∷ indices) h = (omega (arith, h.0), below_64 indices h.1)

-- The flags of a data shred are those of its set.
flagged :
    {K : Type 0} (params : FecSetParams K) (root : Bytes) (b : Bool) (indices : List ℕ)
    → has_flag shred_flag_last_in_slot (some params.flags) ≡ b
    → All (λ i. i < 32) indices
    → All (λ i. is_last_in_slot (result_of params root i) ≡ b) indices
unfolding is_last_in_slot
flagged params root b [] h low = tt
flagged params root b (i ∷ indices) h low =
    (rw (lt→ltb i 32 low.0) h, flagged params root b indices h low.1)

led_by :
    (env : Env) {leader other : Bytes} {key : FecKey} {root : Bytes} {shreds : List Bytes}
    {results : ℕ → VerifiedShred} {indices : List ℕ}
    → leader ≡ other
    → Supply env leader key root shreds results indices
    → Supply env other key root shreds results indices
led_by env {key = key} {root = root} {shreds = shreds} {results = results} {indices = indices} e =
    subst (λ l. Supply env l key root shreds results indices) e

-- The parameters of the slot's second set.
abbrev pub next_params : {K : Type 0} → FecSetParams K → ℕ → ℕ → Bytes → FecSetParams K
next_params params j flags root = record params {
  fec_set_index = j;
  flags = flags;
  chained_root = root;
}

-- For a SHA-256 whose digests have 32 bytes, parameters in the range of their types without the
-- last-in-slot flag, the same with a higher set index, that flag and another chained root, both set
-- indices at most 2 ^ 32 - 32, payloads of at most 32 times 963 bytes, a key pair whose signatures
-- verify, and an erasure code that fills parity shards of the length of its non-empty shards and recovers
-- a set from 32 of its 64 shards: `build_fec_set` returns both sets. A new assembler for the key's
-- leader, fed with the 32 data shreds of the first in any order and then with those of the second in any
-- order, returns. It finalizes no slot in the first part and exactly one in the second, with the two
-- roots in order, their aggregate root and 64 shreds.
pub build_fec_set-IsFinalized :
    (env : Env) (signer : Signer) (payload payload_b : Bytes)
    (params : FecSetParams signer.SigningKey) (j flags : ℕ) (chained : Bytes)
    → IsSha256 env.sha
    → IsEncoder env.rs
    → IsRecovering env.rs
    → IsParams params
    → IsParams (next_params params j flags chained)
    → length payload ≤ 963 * 32
    → length payload_b ≤ 963 * 32
    → params.fec_set_index < j
    → has_flag shred_flag_last_in_slot (some params.flags) ≡ false
    → has_flag shred_flag_last_in_slot (some flags) ≡ true
    → IsKeyPair env.ed signer params.signing_key
    → (indices indices_b : List ℕ) → IsDataShreds indices
    → IsDataShreds indices_b
    → (set set_b : FecSet) × (build_fec_set env.overflow_checks env.sha env.rs signer payload params
        ≡ ok set)
      × (build_fec_set env.overflow_checks env.sha env.rs signer payload_b
            (next_params params j flags chained)
          ≡ ok set_b)
      × IsFinalized env
          (signer.verifying_key params.signing_key)
          params.slot
          set.merkle_root
          set_b.merkle_root
          (map (λ i. get_or set.shreds i []) indices)
          (map (λ i. get_or set_b.shreds i []) indices_b)
build_fec_set-IsFinalized env signer payload payload_b params j flags chained laws enc recovers
      valid valid_b fits fits_b after open_slot last pair indices indices_b h k =
    let (set, run, leads, count, supplies) =
      build_fec_set-Supply env signer payload params laws enc valid fits pair in
    let next = next_params params j flags chained in
    let (set_b, run_b, leads_b, count_b, supplies_b) =
      build_fec_set-Supply env signer payload_b next laws enc valid_b fits_b pair in
    let leader = signer.verifying_key params.signing_key in
    let s = led_by env leads (supplies indices (below_64 indices h.low) h.apart) in
    let t = led_by env leads_b (supplies_b indices_b (below_64 indices_b k.low) k.apart) in
    let done =
      ingest_all-IsFinalized env leader params.slot params.fec_set_index j set.merkle_root
        set_b.merkle_root after s.packets t.packets recovers (s.count ∙ h.count) s.valid s.apart
        (s.of_results (λ v. is_last_in_slot v ≡ false)
          (flagged params set.merkle_root false indices open_slot h.low))
        (t.count ∙ k.count) t.valid t.apart
        (t.of_results (λ v. is_last_in_slot v ≡ true)
          (flagged next set_b.merkle_root true indices_b last k.low)) in
    (
      set,
      set_b,
      run,
      run_b,
      subst
          (IsFinalized env leader params.slot set.merkle_root set_b.merkle_root
            (map (λ i. get_or set.shreds i []) indices))
          t.raws
          (subst
            (λ raws.
              IsFinalized env leader params.slot set.merkle_root set_b.merkle_root raws
                (map (λ d. d.raw) t.packets))
            s.raws done),
    )
