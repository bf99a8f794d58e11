-- ===== src/Shred/FecSet/RoundTrip.antt =====
-- `build_fec_set` as a whole: it succeeds, its shreds are accepted, and they carry the payload.
use lattica.Prelude.{
  ℕ, ◌+◌, ◌-◌, ◌*◌, ◌≤◌, ◌<◌, Bool, true, some, List, [], length, get_or, ltb, lt→ltb, le→ltb_false,
  ltb→lt, ltb-false, Bool-cases, inl, inr, if◌then◌else◌, All, All-get_or, ◌⊎◌, ◌≡◌, refl, ap, ◌∙◌,
  arith,
}
use lattica.Prelude.Bytes.{Bytes}
use lattica.Prelude.Outcome.{ok}
use lattica.Prelude.Buffers.{join, sizes}
use lattica.Shred.Erasure.{ReedSolomon, IsEncoder, IsShard}
use lattica.Shred.Merkle.{Sha256, IsSha256, hash_leaf, merkle_proof, compute_merkle_root}
use lattica.Shred.Verify.{Ed25519, VerifiedShred, verify_shred}
use lattica.Shred.FecSet.{Signer, FecSetParams, FecSet, proof_offset, build_fec_set}
use lattica.Shred.FecSet.Loops.{length-tabulate, get_or-tabulate_0}
use lattica.Shred.FecSet.Layout.{whole}
use lattica.Shred.FecSet.Chunks.{chunk_of, length-chunk_of}
use lattica.Shred.FecSet.Build.{IsParams, sizes-code_body, body_of}
use lattica.Shred.FecSet.Filled.{fill_shreds-IsFilled}
use lattica.Shred.FecSet.Seal.{IsSealed, length-whole, seal_shreds_lem}
use lattica.Shred.FecSet.Accepted.{sizes-data_body, verify_shred-data, verify_shred-code}
use lattica.Shred.FecSet.Results.{IsKeyPair, data_result, code_result}

-- What `verify_shred` is to return for the `i`-th shred of a set.
abbrev pub result_of : {K : Type 0} → FecSetParams K → Bytes → ℕ → VerifiedShred
result_of params root i =
    if ltb i 32 then data_result params root i else code_result params root (i - 32)

-- An index of a shred is that of a data shred, or 32 and that of a coding shred.
index_split : (i : ℕ) → i < 64 → (i < 32) ⊎ ((j : ℕ) × (i ≡ 32 + j) × (j < 32))
index_split i h = elim (Bool-cases (ltb i 32)) [
  | inl e ↦ inl (ltb→lt _ _ e)
  | inr e ↦ let low = ltb-false _ _ e in inr (i - 32, omega (arith, low), omega (arith, low))
]

module _ {K : Type 0} (payload : Bytes) (params : FecSetParams K) (valid : IsParams params)
    (parity : List Bytes) (count : length parity ≡ 32)
    (parity_sized : All (IsShard 987) parity) where
  abbrev pub body_at : ℕ → List Bytes
  body_at = body_of payload params parity

  pub body_at_sized : (i : ℕ) → i < 64 → 64 + sizes (body_at i) ≡ proof_offset i
  body_at_sized i h = elim (index_split i h) [
    | inl low ↦
        let size =
          sizes-data_body params valid (params.fec_set_index + i) (chunk_of payload i)
            (length-chunk_of payload i) in
        rw (lt→ltb i 32 low) (omega (arith, size))
    | inr (j, e, small) ↦
        let size =
          sizes-code_body params valid (params.fec_set_index + j) j (get_or parity j [])
            (All-get_or (IsShard 987) parity j [] (omega (arith, count)) parity_sized) in
        let back : 32 + j - 32 ≡ j = omega arith in
        rw (e, le→ltb_false (32 + j) 32 (omega arith), back) (omega (arith, size))
  ]

  module _ (c : Bool) (sha : Sha256) (ed : Ed25519) (leader root sig proof : Bytes)
      (pk : ed.VerifyingKey) (g : ed.Signature) (decodes : ed.key_from_bytes leader ≡ some pk)
      (carried : ed.signature_from_slice sig ≡ some g) (signed : ed.verify pk root g ≡ true)
      (hs : length sig ≡ 64) (hp : length proof ≡ 120) where
    pub verify_shred-at :
        (i : ℕ)
        → i < 64
        → compute_merkle_root sha i (hash_leaf sha (join (body_at i))) proof ≡ ok root
        → verify_shred c sha ed (whole params sig (body_at i) proof) leader
          ≡ ok (result_of params root i)
    verify_shred-at i h leads = elim (index_split i h) [
      | inl low ↦ rw (lt→ltb i 32 low) (
          verify_shred-data params valid c sha ed leader root sig proof pk g decodes carried signed
            hs hp i (chunk_of payload i) low (length-chunk_of payload i)
            (rw (lt→ltb i 32 low) at leads))
      | inr (j, e, small) ↦
          let back : 32 + j - 32 ≡ j = omega arith in
          let high = le→ltb_false (32 + j) 32 (omega arith) in
          rw (e, high, back)
            (verify_shred-code params valid c sha ed leader root sig proof pk g decodes carried
              signed hs hp j (get_or parity j []) small
              (All-get_or (IsShard 987) parity j [] (omega (arith, count)) parity_sized)
              (rw (e, high, back) at leads))
    ]

-- The set that was built: its shreds, and the tree over them.
pub record IsBuilt (sha : Sha256) (laws : IsSha256 sha) (signer : Signer) (payload : Bytes)
    (params : FecSetParams signer.SigningKey) (valid : IsParams params) (set : FecSet)
    : Type 0 where
  pub parity : List Bytes
  pub count : length parity ≡ 32
  pub parity_sized : All (IsShard 987) parity
  pub sealed :
      IsSealed sha laws params
        (body_at payload params valid parity count parity_sized)
        (body_at_sized payload params valid parity count parity_sized)
        signer
        params.signing_key
        set

module _ (c : Bool) (sha : Sha256) (rs : ReedSolomon) (signer : Signer) (payload : Bytes)
    (params : FecSetParams signer.SigningKey) (laws : IsSha256 sha) (enc : IsEncoder rs)
    (valid : IsParams params) (fits : length payload ≤ 963 * 32)
    (sig_len : (m : Bytes) → length (signer.sign params.signing_key m) ≡ 64) where
  pub build_fec_set-IsBuilt :
      (set : FecSet) × (build_fec_set c sha rs signer payload params ≡ ok set)
      × IsBuilt sha laws signer payload params valid set
  unfolding build_fec_set
  build_fec_set-IsBuilt =
      let filled = fill_shreds-IsFilled c rs enc payload params valid in
      let body = body_at payload params valid filled.parity filled.count filled.sized in
      let sized = body_at_sized payload params valid filled.parity filled.count filled.sized in
      let (set, run, sealed) =
        seal_shreds_lem sha laws params body sized signer params.signing_key sig_len in
      (
        set,
        rw (le→ltb_false (963 * 32) (length payload) fits, filled.filled, run) refl,
        record {
          parity = filled.parity;
          count = filled.count;
          parity_sized = filled.sized;
          sealed = sealed;
        },
      )

  -- Each shred of a set that was built.
  module _ (set : FecSet) (built : IsBuilt sha laws signer payload params valid set) where
    abbrev sealed_at : ℕ → Bytes
    sealed_at i =
        whole params (signer.sign params.signing_key built.sealed.tree.root)
          (body_at payload params valid built.parity built.count built.parity_sized i)
          (merkle_proof built.sealed.tree i)

    shred_lem : (i : ℕ) → i < 64 → get_or set.shreds i [] ≡ sealed_at i
    shred_lem i h =
        ap (λ l. get_or l i []) built.sealed.shreds_of_tree ∙ get_or-tabulate_0 sealed_at 64 i [] h

    pub length-shreds : length set.shreds ≡ 64
    length-shreds = ap length built.sealed.shreds_of_tree ∙ length-tabulate sealed_at 0 64

    pub length-shred : (i : ℕ) → i < 64 → length (get_or set.shreds i []) ≡ proof_offset i + 120
    length-shred i h =
        ap length (shred_lem i h)
        ∙ length-whole sha laws params
            (body_at payload params valid built.parity built.count built.parity_sized)
            (body_at_sized payload params valid built.parity built.count built.parity_sized) i
            (signer.sign params.signing_key built.sealed.tree.root)
            (merkle_proof built.sealed.tree i) h (sig_len built.sealed.tree.root)
            (built.sealed.proofs_sized i)

    pub verify_shred-built :
        (ed : Ed25519)
        → IsKeyPair ed signer params.signing_key
        → (i : ℕ) → i < 64
        → verify_shred c sha ed (get_or set.shreds i []) set.leader_pubkey
          ≡ ok (result_of params set.merkle_root i)
    verify_shred-built ed pair i h =
        let s = built.sealed in
        let (g, carried, signed) = pair.signs s.tree.root in
        rw (shred_lem i h, s.key_of_leader, s.root_of_tree)
          (verify_shred-at payload params valid built.parity built.count built.parity_sized c sha ed
            (signer.verifying_key params.signing_key) s.tree.root
            (signer.sign params.signing_key s.tree.root) (merkle_proof s.tree i) pair.public g
            pair.decodes carried signed (sig_len s.tree.root) (s.proofs_sized i) i h
            (s.proofs_lead i h))

  -- For a SHA-256 whose digests have 32 bytes, parameters in the range of their types with a set index of
  -- at most 2 ^ 32 - 32, a payload of at most 32 times 963 bytes, an encoder that fills parity shards of
  -- the length of its non-empty shards, and a key pair whose signatures verify:
  -- `build_fec_set` returns a set of 64 shreds, and `verify_shred` accepts each of them under the set's
  -- public key, with the set's Merkle root and with the slot, the indices, the chained root and the
  -- flags that the parameters name, at the shred's own position in the set.
  pub build_fec_set-IsVerified :
      (ed : Ed25519)
      → IsKeyPair ed signer params.signing_key
      → (set : FecSet) × (build_fec_set c sha rs signer payload params ≡ ok set)
        × (length set.shreds ≡ 64)
        × ((i : ℕ)
            → i < 64
            → verify_shred c sha ed (get_or set.shreds i []) set.leader_pubkey
              ≡ ok (result_of params set.merkle_root i))
  build_fec_set-IsVerified ed pair =
      let (set, run, built) = build_fec_set-IsBuilt in
      (set, run, length-shreds set built, verify_shred-built set built ed pair)
