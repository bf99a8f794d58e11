-- ===== src/Shred/FecSet/Payload.antt =====
-- The payload in the data shreds of a set.
use lattica.Prelude.{
  ℕ, ◌+◌, ◌-◌, ◌*◌, ◌%◌, ◌^◌, ◌≤◌, ◌<◌, Bool, List, [], ◌∷◌, ◌++◌, length, get_or, ◌≡◌, refl, ap,
  ◌∙◌, arith,
}
use lattica.Prelude.Bytes.{Bytes, to_le_bytes, length-to_le_bytes}
use lattica.Prelude.Outcome.{ok}
use lattica.Prelude.Buffers.{join, segment, number_segment}
use lattica.Shred.Erasure.{ReedSolomon, IsEncoder}
use lattica.Shred.Parse.Shape.{field, number}
use lattica.Shred.Merkle.{Sha256, IsSha256, merkle_proof}
use lattica.Shred.FecSet.{Signer, FecSetParams, FecSet, build_fec_set}
use lattica.Shred.FecSet.Loops.{tabulate, tabulate_ext, get_or-tabulate_0}
use lattica.Shred.FecSet.Layout.{whole, zeros, data_body}
use lattica.Shred.FecSet.Chunks.{chunk_of, length-chunk_of, chunks-join}
use lattica.Shred.FecSet.Build.{IsParams, body_of_data}
use lattica.Shred.FecSet.RoundTrip.{body_at, build_fec_set-IsBuilt}

-- The payload part of a data shred: from the end of its header to the offset that the header names.
abbrev pub payload_part : Bytes → Bytes
payload_part raw = field raw 88 (number raw 86 88)

payload_part_lem :
    {K : Type 0} (params : FecSetParams K) (index : ℕ) (chunk sig proof : Bytes)
    → length sig ≡ 64
    → length chunk ≤ 963
    → payload_part (whole params sig (data_body params index chunk) proof) ≡ chunk
payload_part_lem params index chunk sig proof hs fits =
    let raw = whole params sig (data_body params index chunk) proof in
    let header : List Bytes =
      (sig
        ∷ (150 ∷ [])
        ∷ to_le_bytes 8 params.slot
        ∷ to_le_bytes 4 index
        ∷ to_le_bytes 2 params.version
        ∷ to_le_bytes 4 params.fec_set_index
        ∷ to_le_bytes 2 params.parent_offset
        ∷ (params.flags ∷ [])
        ∷ []) in
    let n = (88 + length chunk) % 2 ^ 16 in
    let after = zeros (963 - length chunk) ∷ params.chained_root ∷ proof ∷ [] in
    let l2 = length-to_le_bytes 8 params.slot in
    let l3 = length-to_le_bytes 4 index in
    let l4 = length-to_le_bytes 2 params.version in
    let l5 = length-to_le_bytes 4 params.fec_set_index in
    let l6 = length-to_le_bytes 2 params.parent_offset in
    let size : number raw 86 88 ≡ n =
      number_segment header 2 n (chunk ∷ after) 86 88 (omega arith)
        (omega (arith, hs, l2, l3, l4, l5, l6)) refl in
    let end : n ≡ 88 + length chunk = omega (arith, fits) in
    ap (λ b. field raw 88 b) (size ∙ end)
    ∙ segment (header ++ (to_le_bytes 2 n ∷ [])) chunk after 88 (88 + length chunk)
        (omega (arith, hs, l2, l3, l4, l5, l6, length-to_le_bytes 2 n)) refl

module _ (c : Bool) (sha : Sha256) (rs : ReedSolomon) (signer : Signer) (payload : Bytes)
    (params : FecSetParams signer.SigningKey) (laws : IsSha256 sha) (enc : IsEncoder rs)
    (valid : IsParams params) (fits : length payload ≤ 963 * 32)
    (sig_len : (m : Bytes) → length (signer.sign params.signing_key m) ≡ 64) where
  -- For a SHA-256 whose digests have 32 bytes, parameters in the range of their types with a set index of
  -- at most 2 ^ 32 - 32, a payload of at most 32 times 963 bytes, an encoder that fills parity shards of
  -- the length of its non-empty shards, and signatures of 64 bytes: the parts that the
  -- headers of the first 32 shreds of the set delimit are, in their order, the payload.
  pub build_fec_set-payload :
      (set : FecSet) × (build_fec_set c sha rs signer payload params ≡ ok set)
      × (join (tabulate (λ i. payload_part (get_or set.shreds i [])) 0 32) ≡ payload)
  build_fec_set-payload =
      let (set, run, built) =
        build_fec_set-IsBuilt c sha rs signer payload params laws enc valid fits sig_len in
      let s = built.sealed in
      let sig = signer.sign params.signing_key s.tree.root in
      let body = body_at payload params valid built.parity built.count built.parity_sized in
      let shred = λ (i : ℕ). whole params sig (body i) (merkle_proof s.tree i) in
      let part = λ (i : ℕ). payload_part (get_or set.shreds i []) in
      let parts : (k : ℕ) → 0 ≤ k → k < 0 + 32 → part k ≡ chunk_of payload k = λ k lo hi.
        let e =
          ap (λ l. get_or l k []) s.shreds_of_tree
          ∙ get_or-tabulate_0 shred 64 k [] (omega arith) in
        let b = body_of_data payload params built.parity k (omega arith) in
        ap payload_part (e ∙ ap (λ b. whole params sig b (merkle_proof s.tree k)) b)
        ∙ payload_part_lem params (params.fec_set_index + k) (chunk_of payload k) sig
            (merkle_proof s.tree k) (sig_len s.tree.root) (length-chunk_of payload k) in
      (
        set,
        run,
        ap join (tabulate_ext part (chunk_of payload) 0 32 parts)
            ∙ chunks-join payload 32 0 (omega (arith, fits)),
      )
