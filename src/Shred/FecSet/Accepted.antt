-- ===== src/Shred/FecSet/Accepted.antt =====
-- A shred with the segments that `build_fec_set` writes is accepted by `verify_shred`.
use lattica.Prelude.{
  ℕ, ◌+◌, ◌-◌, ◌%◌, ◌^◌, ◌≤◌, ◌<◌, Bool, true, some, List, [], ◌∷◌, ◌++◌, length, ◌≡◌, refl, ap,
  ap₂, ◌∙◌, arith,
}
use lattica.Prelude.Bytes.{Bytes, to_le_bytes, length-to_le_bytes}
use lattica.Prelude.Outcome.{ok}
use lattica.Prelude.Buffers.{
  segment, number_segment, join, sizes, length-join, field-join, get_or-join,
}
use lattica.Shred.Variant.{ShredVariant, decode}
use lattica.Shred.Variant.RoundTrip.{IsVariant}
use lattica.Shred.Parse.{expected_len}
use lattica.Shred.Parse.Shape.{field, number, byte, parsed, erasure_index, proof_start, proof_end}
use lattica.Shred.Merkle.{Sha256, hash_leaf, compute_merkle_root}
use lattica.Shred.Verify.{Ed25519, verified, verify_shred}
use lattica.Shred.Verify.Accept.{IsAcceptable, verify_shred_accepts}
use lattica.Shred.FecSet.{FecSetParams, data_variant, code_variant}
use lattica.Shred.FecSet.Layout.{whole, zeros, region, data_body, code_body}
use lattica.Shred.FecSet.Build.{IsParams, length-region, sizes-code_body}
use lattica.Shred.FecSet.Results.{
  data_variant-IsVariant, code_variant-IsVariant, sizes-append, erasure_index_data, data_result,
  code_result,
}
use lattica.Shred.FecSet.Fields.{HasHeader, header_lem}

module _ {K : Type 0} (params : FecSetParams K) (valid : IsParams params) where
  pub sizes-data_body :
      (index : ℕ) (chunk : Bytes) → length chunk ≤ 963 → sizes (data_body params index chunk) ≡ 1019
  sizes-data_body index chunk fits =
      let r = length-region params valid index chunk fits in
      let s = length-join (region params index chunk) in omega (arith, r, s, valid.root_len)

  data_fields :
      (raw root : Bytes) (i : ℕ)
      → HasHeader params raw 150 (params.fec_set_index + i)
      → field raw 1051 1083 ≡ params.chained_root
      → byte raw 85 ≡ params.flags
      → verified (parsed raw data_variant i) root ≡ data_result params root i
  data_fields raw root i h chained flags = rw (h.slot_eq, h.index_eq, h.fec_eq, chained, flags) refl

  code_fields :
      (raw root : Bytes) (j : ℕ)
      → HasHeader params raw 102 (params.fec_set_index + j)
      → field raw 1076 1108 ≡ params.chained_root
      → verified (parsed raw code_variant (32 + j)) root ≡ code_result params root j
  code_fields raw root j h chained = rw (h.slot_eq, h.index_eq, h.fec_eq, chained) refl

  module _ (c : Bool) (sha : Sha256) (ed : Ed25519) (leader root sig proof : Bytes)
      (pk : ed.VerifyingKey) (g : ed.Signature) (decodes : ed.key_from_bytes leader ≡ some pk)
      (carried : ed.signature_from_slice sig ≡ some g) (signed : ed.verify pk root g ≡ true)
      (hs : length sig ≡ 64) (hp : length proof ≡ 120) where
    sizes-whole : (body : List Bytes) → sizes (sig ∷ (body ++ (proof ∷ []))) ≡ 184 + sizes body
    sizes-whole body = omega (arith, sizes-append body (proof ∷ []), hs, hp)

    -- A shred that has the segments `body` and the header of the variant.
    built_IsAcceptable :
        (v : ShredVariant) (tag index e : ℕ) (body : List Bytes)
        → IsVariant v
        → tag < 256
        → decode tag ≡ ok v
        → HasHeader params (whole params sig body proof) tag index
        → erasure_index c (whole params sig body proof) v.kind ≡ ok e
        → 64 + sizes body ≡ proof_start v
        → proof_start v + 120 ≡ proof_end v
        → 83 ≤ proof_end v
        → expected_len v.kind ≡ proof_end v
        → compute_merkle_root sha e (hash_leaf sha (join body)) proof ≡ ok root
        → IsAcceptable c sha ed (whole params sig body proof) leader root v e
    built_IsAcceptable v tag index e body variant small known h position size room big len leads =
        let raw = whole params sig body proof in
        let total = length-join (sig ∷ (body ++ (proof ∷ []))) in
        let parts = sizes-whole body in
        let e1 : field raw 64 (proof_start v) ≡ join body =
          field-join (sig ∷ []) body (proof ∷ []) 64 (proof_start v) (omega (arith, hs))
            (omega (arith, size)) in
        let e2 : field raw (proof_start v) (proof_end v) ≡ proof =
          segment (sig ∷ body) proof [] (proof_start v) (proof_end v) (omega (arith, hs, size))
            (omega (arith, hp, room)) in
        let e0 : field raw 0 64 ≡ sig =
          segment [] sig (body ++ (proof ∷ [])) 0 64 refl (omega (arith, hs)) in
        record {
          tag_byte = omega (arith, h.tag_eq, small);
          well_sized = record {
            has_header = omega (arith, total, parts, size, room, big);
            tag = ap decode h.tag_eq ∙ known;
            has_payload = omega (arith, total, parts, size, room, len);
          };
          variant = variant;
          index = position;
          leads = ap₂ (λ x y. compute_merkle_root sha e (hash_leaf sha x) y) e1 e2 ∙ leads;
          key = pk;
          leader_key = decodes;
          signature = g;
          carried = ap ed.signature_from_slice e0 ∙ carried;
          valid = signed;
        }

    pub verify_shred-data :
        (i : ℕ) (chunk : Bytes)
        → i < 32
        → length chunk ≤ 963
        → compute_merkle_root sha i
            (hash_leaf sha (join (data_body params (params.fec_set_index + i) chunk)))
            proof
          ≡ ok root
        → verify_shred c sha ed
            (whole params sig (data_body params (params.fec_set_index + i) chunk) proof)
            leader
          ≡ ok (data_result params root i)
    unfolding decode
    verify_shred-data i chunk small fits leads =
        let index = params.fec_set_index + i in
        let body = data_body params index chunk in
        let raw = whole params sig body proof in
        let bound = valid.index_range in
        let size = sizes-data_body index chunk fits in
        let r = length-region params valid index chunk fits in
        let s = length-join (region params index chunk) in
        let h : HasHeader params raw 150 index =
          header_lem params sig 150 index
            (to_le_bytes 2 params.parent_offset
              ∷ (params.flags ∷ [])
              ∷ to_le_bytes 2 ((88 + length chunk) % 2 ^ 16)
              ∷ chunk
              ∷ zeros (963 - length chunk)
              ∷ params.chained_root
              ∷ proof
              ∷ [])
            valid (omega arith) hs in
        verify_shred_accepts c sha ed raw leader root data_variant i (
          built_IsAcceptable data_variant 150 index i body data_variant-IsVariant (omega arith) refl
            h (erasure_index_data c raw i params.fec_set_index h.index_eq h.fec_eq)
            (omega (arith, size)) refl (omega arith) refl leads)
        ∙ ap ok (
            data_fields raw root i h
              (segment (sig ∷ region params index chunk) params.chained_root (proof ∷ []) 1051 1083
                (omega (arith, hs, r, s)) (omega (arith, valid.root_len)))
              (get_or-join
                (sig
                  ∷ (150 ∷ [])
                  ∷ to_le_bytes 8 params.slot
                  ∷ to_le_bytes 4 index
                  ∷ to_le_bytes 2 params.version
                  ∷ to_le_bytes 4 params.fec_set_index
                  ∷ to_le_bytes 2 params.parent_offset
                  ∷ [])
                params.flags
                (to_le_bytes 2 ((88 + length chunk) % 2 ^ 16)
                  ∷ chunk
                  ∷ zeros (963 - length chunk)
                  ∷ params.chained_root
                  ∷ proof
                  ∷ [])
                85
                (omega (
                  arith,
                  hs,
                  length-to_le_bytes 8 params.slot,
                  length-to_le_bytes 4 index,
                  length-to_le_bytes 2 params.version,
                  length-to_le_bytes 4 params.fec_set_index,
                  length-to_le_bytes 2 params.parent_offset,
                ))))

    pub verify_shred-code :
        (j : ℕ) (parity : Bytes)
        → j < 32
        → length parity ≡ 987
        → compute_merkle_root sha
            (32 + j)
            (hash_leaf sha (join (code_body params (params.fec_set_index + j) j parity)))
            proof
          ≡ ok root
        → verify_shred c sha ed
            (whole params sig (code_body params (params.fec_set_index + j) j parity) proof)
            leader
          ≡ ok (code_result params root j)
    unfolding decode
    verify_shred-code j parity small fits leads =
        let index = params.fec_set_index + j in
        let body = code_body params index j parity in
        let raw = whole params sig body proof in
        let bound = valid.index_range in
        let size = sizes-code_body params valid index j parity fits in
        let start : List Bytes =
          (sig
            ∷ (102 ∷ [])
            ∷ to_le_bytes 8 params.slot
            ∷ to_le_bytes 4 index
            ∷ to_le_bytes 2 params.version
            ∷ to_le_bytes 4 params.fec_set_index
            ∷ to_le_bytes 2 32
            ∷ to_le_bytes 2 32
            ∷ []) in
        let h : HasHeader params raw 102 index =
          header_lem params sig 102 index
            (to_le_bytes 2 32
              ∷ to_le_bytes 2 32
              ∷ to_le_bytes 2 j
              ∷ parity
              ∷ params.chained_root
              ∷ proof
              ∷ [])
            valid (omega arith) hs in
        let position : number raw 87 89 ≡ j =
          number_segment start 2 j (parity ∷ params.chained_root ∷ proof ∷ []) 87 89 (omega arith)
            (omega (
              arith,
              hs,
              length-to_le_bytes 8 params.slot,
              length-to_le_bytes 4 index,
              length-to_le_bytes 2 params.version,
              length-to_le_bytes 4 params.fec_set_index,
              length-to_le_bytes 2 32,
            ))
            refl in
        verify_shred_accepts c sha ed raw leader root code_variant (32 + j) (
          built_IsAcceptable code_variant 102 index (32 + j) body code_variant-IsVariant
            (omega arith) refl h (ap (λ n. ok (32 + n)) position) (omega (arith, size)) refl
            (omega arith) refl leads)
        ∙ ap ok (
            code_fields raw root j h (
              segment
                (sig
                  ∷ (102 ∷ [])
                  ∷ to_le_bytes 8 params.slot
                  ∷ to_le_bytes 4 index
                  ∷ to_le_bytes 2 params.version
                  ∷ to_le_bytes 4 params.fec_set_index
                  ∷ to_le_bytes 2 32
                  ∷ to_le_bytes 2 32
                  ∷ to_le_bytes 2 j
                  ∷ parity
                  ∷ [])
                params.chained_root (proof ∷ []) 1076 1108 (omega (arith, hs, size, valid.root_len))
                (omega (arith, valid.root_len))))
