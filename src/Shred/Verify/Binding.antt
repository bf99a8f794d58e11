-- ===== src/Shred/Verify/Binding.antt =====
-- What the root of an accepted shred commits to: its position among the leaves and its bytes.
use lattica.Prelude.{ℕ, ◌*◌, ◌/◌, ◌^◌, ◌<◌, Bool, length, All, ◌≡◌, sym, ap, ◌∙◌, ◌⊎◌, subst, arith}
use lattica.Prelude.Bytes.{Bytes, IsByte}
use lattica.Prelude.Outcome.{Outcome, ok}
use lattica.Shred.Parse.{ParsedShred, parse_shred}
use lattica.Shred.Parse.Ranges.{parse_shred-IsParsed}
use lattica.Shred.Merkle.{Sha256, IsSha256, hash_leaf, compute_merkle_root}
use lattica.Shred.Merkle.Binding.{Collision, merkle_root_binds, compute_merkle_root-index}
use lattica.Shred.Verify.{Ed25519, VerifiedShred, verify_shred}
use lattica.Shred.Verify.Authentic.{
  leaf_bytes, proof_bytes, length-proof_bytes, verify_shred-IsAuthentic,
}

ok_inj : {E A : Type 0} {a b : A} → ◌≡◌ {A = Outcome E A} (ok a) (ok b) → a ≡ b
ok_inj e = cc

module _ (c : Bool) (sha : Sha256) (ed : Ed25519) (leader : Bytes) where
  -- The path from the leaf to the root, for the shred that the bytes are parsed to.
  accepted_root :
      (raw : Bytes) (p : ParsedShred) (s : VerifiedShred)
      → All IsByte raw
      → parse_shred c raw ≡ ok p
      → verify_shred c sha ed raw leader ≡ ok s
      → (compute_merkle_root sha s.erasure_shard_index
            (hash_leaf sha (leaf_bytes p))
            (proof_bytes p)
          ≡ ok s.merkle_root)
        × (length (proof_bytes p) ≡ 20 * p.header.variant.proof_size)
  accepted_root raw p s bytes parsing h =
      let a = verify_shred-IsAuthentic c sha ed raw leader bytes s h in
      let same : a.shred ≡ p = ok_inj (sym a.from_raw ∙ parsing) in
      let index : a.shred.erasure_shard_index ≡ s.erasure_shard_index =
        sym (ap (λ (t : VerifiedShred). t.erasure_shard_index) a.fields) in
      (
        subst
            (λ (q : ParsedShred).
              compute_merkle_root sha s.erasure_shard_index (hash_leaf sha (leaf_bytes q))
                (proof_bytes q)
              ≡ ok s.merkle_root)
            same
            (subst
              (λ (i : ℕ).
                compute_merkle_root sha i (hash_leaf sha (leaf_bytes a.shred)) (proof_bytes a.shred)
                ≡ ok s.merkle_root)
              index a.under_root),
        length-proof_bytes (parse_shred-IsParsed c raw p bytes parsing),
      )

  -- The erasure index of an accepted shred is one that its proof's length can address: with the six
  -- entries of a 32:32 set it is below 64.
  pub verify_shred-index :
      (raw : Bytes) (p : ParsedShred) (s : VerifiedShred)
      → All IsByte raw
      → parse_shred c raw ≡ ok p
      → verify_shred c sha ed raw leader ≡ ok s
      → s.erasure_shard_index < 2 ^ p.header.variant.proof_size
  verify_shred-index raw p s bytes parsing h =
      let (path, len) = accepted_root raw p s bytes parsing h in
      let entries : length (proof_bytes p) / 20 ≡ p.header.variant.proof_size =
        omega (arith, len) in
      rw entries at (
        compute_merkle_root-index sha s.erasure_shard_index (hash_leaf sha (leaf_bytes p))
          (proof_bytes p) s.merkle_root path)

  -- Two accepted shreds of one root, one erasure index and one proof size carry the same bytes under
  -- the leaf, header and payload included, or they show a collision of the truncated SHA-256.
  pub accepted_shreds_agree :
      (raw raw' : Bytes) (p p' : ParsedShred) (s s' : VerifiedShred)
      → IsSha256 sha
      → All IsByte raw
      → All IsByte raw'
      → parse_shred c raw ≡ ok p
      → parse_shred c raw' ≡ ok p'
      → verify_shred c sha ed raw leader ≡ ok s
      → verify_shred c sha ed raw' leader ≡ ok s'
      → s.merkle_root ≡ s'.merkle_root
      → s.erasure_shard_index ≡ s'.erasure_shard_index
      → p.header.variant.proof_size ≡ p'.header.variant.proof_size
      → (leaf_bytes p ≡ leaf_bytes p') ⊎ Collision sha
  accepted_shreds_agree raw raw' p p' s s' laws bytes bytes' parsing parsing' h h' root index size =
      let (path, len) = accepted_root raw p s bytes parsing h in
      let (path', len') = accepted_root raw' p' s' bytes' parsing' h' in
      merkle_root_binds sha s.erasure_shard_index (leaf_bytes p) (leaf_bytes p') (proof_bytes p)
        (proof_bytes p') s.merkle_root laws (omega (arith, len, len', size)) path
        (rw (index, root) path')
