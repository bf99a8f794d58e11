-- ===== src/Listener/Ingest/Packets.antt =====
-- The packets of a built set, as the assembler takes them.
use lattica.Prelude.{
  ℕ, suc, ◌+◌, ◌*◌, ◌≤◌, ◌<◌, List, [], ◌∷◌, map, ltb, ltb-false, length, get_or, All, ◌≡◌, ◌≢◌,
  refl, sym, ap, ◌∙◌, inl, inr, Bool-cases, arith,
}
use lattica.Prelude.Bytes.{Bytes}
use lattica.Prelude.Outcome.{ok}
use lattica.Shred.Merkle.{IsSha256}
use lattica.Shred.Erasure.{IsEncoder}
use lattica.Shred.Verify.{VerifiedShred, verify_shred}
use lattica.Shred.Verify.Accept.{verify_shred-parse}
use lattica.Shred.FecSet.{Signer, FecSetParams, FecSet, proof_offset, build_fec_set}
use lattica.Shred.FecSet.Build.{IsParams}
use lattica.Shred.FecSet.Results.{IsKeyPair}
use lattica.Shred.FecSet.RoundTrip.{
  result_of, length-shred, length-shreds, verify_shred-built, build_fec_set-IsBuilt,
}
use lattica.Listener.State.{FecKey, Env}
use lattica.Listener.Ingest.{key_of, shard_offset}
use lattica.Listener.Ingest.Complete.{Delivery, index_of, IsDelivery, IsDistinct}

-- No two are equal.
abbrev pub AllDifferent : List ℕ → Type 0
AllDifferent [] = Unit
AllDifferent (i ∷ is) = All (λ j. j ≢ i) is × AllDifferent is

module _ {K : Type 0} (params : FecSetParams K) (root : Bytes) where
  result_index : (i : ℕ) → (result_of params root i).erasure_shard_index ≡ i
  result_index i = elim (Bool-cases (ltb i 32)) [
    | inl e ↦ rw e refl
    | inr e ↦ rw e (omega (arith, ltb-false _ _ e))
  ]

  result_key :
      (i : ℕ)
      → key_of (result_of params root i)
        ≡ record { slot = params.slot; fec_set_index = params.fec_set_index }
  result_key i = elim (Bool-cases (ltb i 32)) [ inl e ↦ rw e refl | inr e ↦ rw e refl ]

  result_root : (i : ℕ) → (result_of params root i).merkle_root ≡ root
  result_root i = elim (Bool-cases (ltb i 32)) [ inl e ↦ rw e refl | inr e ↦ rw e refl ]

  result_fits : (i : ℕ) → shard_offset (result_of params root i).kind + 987 ≤ proof_offset i + 120
  result_fits i = elim (Bool-cases (ltb i 32)) [
    | inl e ↦ rw e (omega arith)
    | inr e ↦ rw e (omega arith)
  ]

module _ (env : Env) (leader : Bytes) (shreds : List Bytes) (results : ℕ → VerifiedShred)
    (accepted : (i : ℕ)
      → i < 64
      → verify_shred env.overflow_checks env.sha env.ed (get_or shreds i []) leader
        ≡ ok (results i)) where
  delivery_at : (i : ℕ) → i < 64 → Delivery
  delivery_at i h =
      let raw = get_or shreds i [] in
      record {
        raw = raw;
        parse =
            (verify_shred-parse env.overflow_checks env.sha env.ed raw leader (results i)
              (accepted i h)).0;
        shred = results i;
      }

  deliveries : (indices : List ℕ) → All (λ i. i < 64) indices → List Delivery
  deliveries [] h = []
  deliveries (i ∷ indices) h = delivery_at i h.0 ∷ deliveries indices h.1

  All-deliveries :
      (P : VerifiedShred → Type 0) (indices : List ℕ) (h : All (λ i. i < 64) indices)
      → All (λ i. P (results i)) indices
      → All (λ d. P d.shred) (deliveries indices h)
  unfolding deliveries delivery_at
  All-deliveries P [] h k = tt
  All-deliveries P (i ∷ indices) h k = (k.0, All-deliveries P indices h.1 k.1)

  length-deliveries :
      (indices : List ℕ) (h : All (λ i. i < 64) indices)
      → length (deliveries indices h) ≡ length indices
  unfolding deliveries
  length-deliveries [] h = refl
  length-deliveries (i ∷ indices) h = ap suc (length-deliveries indices h.1)

  raw-deliveries :
      (indices : List ℕ) (h : All (λ i. i < 64) indices)
      → map (λ d. d.raw) (deliveries indices h) ≡ map (λ i. get_or shreds i []) indices
  unfolding deliveries delivery_at
  raw-deliveries [] h = refl
  raw-deliveries (i ∷ indices) h = ap (λ t. get_or shreds i [] ∷ t) (raw-deliveries indices h.1)

  module _ (indexed : (i : ℕ) → (results i).erasure_shard_index ≡ i) where
    index-delivery_at : (i : ℕ) (h : i < 64) → index_of (delivery_at i h) ≡ i
    unfolding delivery_at
    index-delivery_at i h =
        (verify_shred-parse env.overflow_checks env.sha env.ed (get_or shreds i []) leader
          (results i) (accepted i h)).2
        ∙ indexed i

    differ :
        (i : ℕ) (h : i < 64) (indices : List ℕ) (k : All (λ j. j < 64) indices)
        → All (λ j. j ≢ i) indices
        → All (λ e. index_of e ≢ index_of (delivery_at i h)) (deliveries indices k)
    unfolding deliveries
    differ i h [] k apart = tt
    differ i h (j ∷ indices) k apart = (
      λ e. apart.0 (sym (index-delivery_at j k.0) ∙ e ∙ index-delivery_at i h),
      differ i h indices k.1 apart.1,
    )

    deliveries-IsDistinct :
        (indices : List ℕ) (h : All (λ i. i < 64) indices)
        → AllDifferent indices
        → IsDistinct (deliveries indices h)
    unfolding deliveries
    deliveries-IsDistinct [] h apart = tt
    deliveries-IsDistinct (i ∷ indices) h apart =
        (differ i h.0 indices h.1 apart.0, deliveries-IsDistinct indices h.1 apart.1)

    deliveries-All :
        (key : FecKey) (root : Bytes)
        → ((i : ℕ) → key_of (results i) ≡ key)
        → ((i : ℕ) → (results i).merkle_root ≡ root)
        → ((i : ℕ) → i < 64 → shard_offset (results i).kind + 987 ≤ length (get_or shreds i []))
        → (indices : List ℕ) (h : All (λ i. i < 64) indices)
        → All (IsDelivery env leader key root) (deliveries indices h)
    unfolding deliveries delivery_at
    deliveries-All key root keyed rooted fits [] h = tt
    deliveries-All key root keyed rooted fits (i ∷ indices) h =
        let raw = get_or shreds i [] in
        let (p, parsing, _) =
          verify_shred-parse env.overflow_checks env.sha env.ed raw leader (results i)
            (accepted i h.0) in
        (
          record {
            parsing = parsing;
            verifying = accepted i h.0;
            of_set = keyed i;
            of_root = rooted i;
            low = omega (arith, index-delivery_at i h.0, h.0);
            fits = fits i h.0;
          },
          deliveries-All key root keyed rooted fits indices h.1,
        )

-- Packets of a set, and what `verify_shred` makes of them.
pub record Supply (env : Env) (leader : Bytes) (key : FecKey) (root : Bytes) (shreds : List Bytes)
    (results : ℕ → VerifiedShred) (indices : List ℕ) : Type 1 where
  pub packets : List Delivery
  pub raws : map (λ d. d.raw) packets ≡ map (λ i. get_or shreds i []) indices
  pub count : length packets ≡ length indices
  pub valid : All (IsDelivery env leader key root) packets
  pub apart : IsDistinct packets
  pub of_results :
      (P : VerifiedShred → Type 0) → All (λ i. P (results i)) indices → All (λ d. P d.shred) packets

pub build_fec_set-Supply :
    (env : Env) (signer : Signer) (payload : Bytes) (params : FecSetParams signer.SigningKey)
    → IsSha256 env.sha
    → IsEncoder env.rs
    → IsParams params
    → length payload ≤ 963 * 32
    → IsKeyPair env.ed signer params.signing_key
    → (set : FecSet) × (build_fec_set env.overflow_checks env.sha env.rs signer payload params
        ≡ ok set)
      × (set.leader_pubkey ≡ signer.verifying_key params.signing_key)
      × (length set.shreds ≡ 64)
      × ((indices : List ℕ)
          → All (λ i. i < 64) indices
          → AllDifferent indices
          → Supply env set.leader_pubkey
              (record { slot = params.slot; fec_set_index = params.fec_set_index })
              set.merkle_root
              set.shreds
              (result_of params set.merkle_root)
              indices)
build_fec_set-Supply env signer payload params laws enc valid fits pair =
    let c = env.overflow_checks in
    let (set, run, built) =
      build_fec_set-IsBuilt c env.sha env.rs signer payload params laws enc valid fits
        pair.length-sign in
    let accepted =
      verify_shred-built c env.sha env.rs signer payload params laws enc valid fits pair.length-sign
        set built env.ed pair in
    let results = result_of params set.merkle_root in
    let sized =
      length-shred c env.sha env.rs signer payload params laws enc valid fits pair.length-sign set
        built in
    let indexed = result_index params set.merkle_root in
    let key : FecKey = record { slot = params.slot; fec_set_index = params.fec_set_index } in
    (
      set,
      run,
      built.sealed.key_of_leader,
      length-shreds c env.sha env.rs signer payload params laws enc valid fits pair.length-sign set
          built,
      λ indices low apart. record {
        packets = deliveries env set.leader_pubkey set.shreds results accepted indices low;
        raws = raw-deliveries env set.leader_pubkey set.shreds results accepted indices low;
        count = length-deliveries env set.leader_pubkey set.shreds results accepted indices low;
        valid =
            deliveries-All env set.leader_pubkey set.shreds results accepted indexed key
              set.merkle_root (result_key params set.merkle_root)
              (result_root params set.merkle_root)
              (λ i h. omega (arith, result_fits params set.merkle_root i, sized i h)) indices low;
        apart =
            deliveries-IsDistinct env set.leader_pubkey set.shreds results accepted indexed indices
              low apart;
        of_results =
            λ P. All-deliveries env set.leader_pubkey set.shreds results accepted P indices low;
      },
    )
