-- ===== src/Shred/FecSet/Seal.antt =====
-- What sealing writes: the proof and the signature of every shred.
use lattica.Prelude.{
  ℕ, ◌+◌, ◌*◌, ◌<◌, List, [], ◌∷◌, ◌++◌, length, length-append, length-replicate, All, ◌≡◌, refl,
  sym, ap, ◌∙◌, arith,
}
use lattica.Prelude.Bytes.{Bytes}
use lattica.Prelude.Outcome.{ok, slice_lem}
use lattica.Prelude.Buffers.{join, sizes, length-join, join-append, copy-join, field-join}
use lattica.Shred.Variant.{ShredError}
use lattica.Shred.Merkle.{Sha256, IsSha256, hash_leaf, Tree, merkle_proof, compute_merkle_root}
use lattica.Shred.Merkle.Levels.{IsNode}
use lattica.Shred.Merkle.Proof.{merkle_round_trip}
use lattica.Shred.Merkle.Height.{length-merkle_proof}
use lattica.Shred.FecSet.{
  Signer, FecSetParams, FecSet, proof_offset, take_leaf, write_proof, write_signature, seal_shreds,
}
use lattica.Shred.FecSet.Loops.{
  tabulate, length-tabulate, get_or-tabulate_0, All-tabulate, map_indexed_table,
}
use lattica.Shred.FecSet.Layout.{zeros, whole}

module _ {K : Type 0} (sha : Sha256) (laws : IsSha256 sha) (params : FecSetParams K)
    (body : ℕ → List Bytes) (sized : (i : ℕ) → i < 64 → 64 + sizes (body i) ≡ proof_offset i) where
  abbrev leaf_at : ℕ → Bytes
  leaf_at i = hash_leaf sha (join (body i))

  pub length-whole :
      (i : ℕ) (sig proof : Bytes)
      → i < 64
      → length sig ≡ 64
      → length proof ≡ 120
      → length (whole params sig (body i) proof) ≡ proof_offset i + 120
  length-whole i sig proof h hs hp = omega (
    arith,
    hs,
    hp,
    sized i h,
    length-append sig (join (body i ++ (proof ∷ []))),
    ap length (join-append (body i) (proof ∷ [])),
    length-append (join (body i)) (join (proof ∷ [])),
    length-append proof [],
    length-join (body i),
  )

  take_leaf_lem :
      (i : ℕ) (sig proof : Bytes)
      → i < 64
      → length sig ≡ 64
      → length proof ≡ 120
      → take_leaf sha i (whole params sig (body i) proof) ≡ ok (leaf_at i)
  unfolding take_leaf
  take_leaf_lem i sig proof h hs hp =
      let buf = whole params sig (body i) proof in
      let off = sized i h in
      let total = length-whole i sig proof h hs hp in
      let got =
        slice_lem {E = ShredError} buf 64 (proof_offset i) (omega (arith, off))
          (omega (arith, total))
        ∙ ap ok (
            field-join (sig ∷ []) (body i) (proof ∷ []) 64 (proof_offset i) (omega (arith, hs))
              (omega (arith, off))) in
      rw got refl

  write_proof_lem :
      (tree : Tree) (i : ℕ)
      → i < 64
      → length (merkle_proof tree i) ≡ 120
      → write_proof tree i (whole params (zeros 64) (body i) (zeros 120))
        ≡ ok (whole params (zeros 64) (body i) (merkle_proof tree i))
  unfolding write_proof
  write_proof_lem tree i h hp =
      copy-join {E = ShredError} (zeros 64 ∷ body i) (zeros 120) [] (merkle_proof tree i)
        (proof_offset i) (proof_offset i + 6 * 20)
        (omega (arith, sized i h, length-replicate {A = ℕ} 64 0))
        (omega (arith, length-replicate {A = ℕ} 120 0)) (hp ∙ sym (length-replicate {A = ℕ} 120 0))

  write_signature_lem :
      (sig : Bytes) (i : ℕ) (proof : Bytes)
      → length sig ≡ 64
      → write_signature sig i (whole params (zeros 64) (body i) proof)
        ≡ ok (whole params sig (body i) proof)
  unfolding write_signature
  write_signature_lem sig i proof hs =
      copy-join {E = ShredError} [] (zeros 64) (body i ++ (proof ∷ [])) sig 0 64 refl
        (omega (arith, length-replicate {A = ℕ} 64 0)) (hs ∙ sym (length-replicate {A = ℕ} 64 0))

  leaves-IsNode : All IsNode (tabulate leaf_at 0 64)
  unfolding hash_leaf
  leaves-IsNode = All-tabulate IsNode leaf_at 0 64 (λ k lo hi. laws.length-digest _)

  -- The tree over the shreds, and the set that sealing returns.
  pub record IsSealed (signer : Signer) (key : signer.SigningKey) (set : FecSet) : Type 0 where
    pub tree : Tree
    pub root_of_tree : set.merkle_root ≡ tree.root
    pub signed : set.signature ≡ signer.sign key tree.root
    pub key_of_leader : set.leader_pubkey ≡ signer.verifying_key key
    pub shreds_of_tree :
        set.shreds
        ≡ tabulate
            (λ i. whole params (signer.sign key tree.root) (body i) (merkle_proof tree i))
            0
            64
    pub proofs_sized : (i : ℕ) → length (merkle_proof tree i) ≡ 120
    pub proofs_lead :
        (i : ℕ)
        → i < 64
        → compute_merkle_root sha i (leaf_at i) (merkle_proof tree i) ≡ ok tree.root

  pub seal_shreds_lem :
      (signer : Signer) (key : signer.SigningKey)
      → ((m : Bytes) → length (signer.sign key m) ≡ 64)
      → (set : FecSet) × (seal_shreds sha signer key
            (tabulate (λ i. whole params (zeros 64) (body i) (zeros 120)) 0 64)
          ≡ ok set)
        × IsSealed signer key set
  unfolding seal_shreds
  seal_shreds_lem signer key sig_len =
      let leaves = tabulate leaf_at 0 64 in
      let count = length-tabulate leaf_at 0 64 in
      let (tree, built, lead) =
        merkle_round_trip sha leaves laws leaves-IsNode (omega (arith, count)) in
      let proof_len = λ (i : ℕ).
        length-merkle_proof sha laws 6 leaves tree i leaves-IsNode count (omega (arith, count))
          built in
      let sig = signer.sign key tree.root in
      let filled = λ (i : ℕ). whole params (zeros 64) (body i) (zeros 120) in
      let proved = λ (i : ℕ). whole params (zeros 64) (body i) (merkle_proof tree i) in
      let sealed = λ (i : ℕ). whole params sig (body i) (merkle_proof tree i) in
      let e1 = map_indexed_table (take_leaf sha) filled leaf_at 0 64 (λ k lo hi.
        take_leaf_lem k (zeros 64) (zeros 120) hi (length-replicate {A = ℕ} 64 0)
          (length-replicate {A = ℕ} 120 0)) in
      let e2 =
        map_indexed_table (write_proof tree) filled proved 0 64
          (λ k lo hi. write_proof_lem tree k hi (proof_len k)) in
      let e3 =
        map_indexed_table (write_signature sig) proved sealed 0 64
          (λ k lo hi. write_signature_lem sig k (merkle_proof tree k) (sig_len tree.root)) in
      (
        record {
          shreds = tabulate sealed 0 64;
          merkle_root = tree.root;
          leader_pubkey = signer.verifying_key key;
          signature = sig;
        },
        rw (e1, built, e2, e3) refl,
        record {
          tree = tree;
          root_of_tree = refl;
          signed = refl;
          key_of_leader = refl;
          shreds_of_tree = refl;
          proofs_sized = proof_len;
          proofs_lead = λ i h.
              ap (λ l. compute_merkle_root sha i l (merkle_proof tree i))
                (sym (get_or-tabulate_0 leaf_at 64 i [] h))
              ∙ lead i (omega (arith, count));
        },
      )
