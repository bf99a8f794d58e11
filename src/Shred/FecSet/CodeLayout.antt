-- ===== src/Shred/FecSet/CodeLayout.antt =====
-- A coding buffer: what the writes of a round leave in a buffer of zeros.
use lattica.Prelude.{ℕ, Bool, [], ◌∷◌, length, ◌≡◌, refl, ap, ◌∙◌, arith}
use lattica.Prelude.Bytes.{Bytes, to_le_bytes, length-to_le_bytes}
use lattica.Prelude.Outcome.{ok}
use lattica.Prelude.Buffers.{join, copy-join, set_byte-join}
use lattica.Shred.Variant.{ShredError, encode}
use lattica.Shred.FecSet.{FecSetParams, code_variant, add_u32, fill_code}
use lattica.Shred.FecSet.Layout.{zeros, zeros-join, code_body, whole}

module _ {K : Type 0} (params : FecSetParams K) where
  module _ (c : Bool) (chained : length params.chained_root ≡ 32) where
    code_writes :
        (j index : ℕ) (z0 z2 z3 z4 z5 z6 z7 z8 z9 z10 z11 : Bytes) (y1 : ℕ)
        → add_u32 c params.fec_set_index j ≡ ok index
        → length z0 ≡ 64
        → length z2 ≡ 8
        → length z3 ≡ 4
        → length z4 ≡ 2
        → length z5 ≡ 4
        → length z6 ≡ 2
        → length z7 ≡ 2
        → length z8 ≡ 2
        → length z9 ≡ 987
        → length z10 ≡ 32
        → fill_code c params j
            (join (z0 ∷ (y1 ∷ []) ∷ z2 ∷ z3 ∷ z4 ∷ z5 ∷ z6 ∷ z7 ∷ z8 ∷ z9 ∷ z10 ∷ z11 ∷ []))
          ≡ ok (
              join (
                z0
                ∷ (encode code_variant ∷ [])
                ∷ to_le_bytes 8 params.slot
                ∷ to_le_bytes 4 index
                ∷ to_le_bytes 2 params.version
                ∷ to_le_bytes 4 params.fec_set_index
                ∷ to_le_bytes 2 32
                ∷ to_le_bytes 2 32
                ∷ to_le_bytes 2 j
                ∷ z9
                ∷ params.chained_root
                ∷ z11
                ∷ []))
    unfolding fill_code
    code_writes j index z0 z2 z3 z4 z5 z6 z7 z8 z9 z10 z11 y1 hi h0 h2 h3 h4 h5 h6 h7 h8 h9 h10 =
        let tag = encode code_variant ∷ [] in
        let slot = to_le_bytes 8 params.slot in
        let index_bytes = to_le_bytes 4 index in
        let version = to_le_bytes 2 params.version in
        let fec = to_le_bytes 4 params.fec_set_index in
        let count = to_le_bytes 2 32 in
        let position = to_le_bytes 2 j in
        let l2 = length-to_le_bytes 8 params.slot in
        let l3 = length-to_le_bytes 4 index in
        let l4 = length-to_le_bytes 2 params.version in
        let l5 = length-to_le_bytes 4 params.fec_set_index in
        let l6 = length-to_le_bytes 2 32 in
        let l8 = length-to_le_bytes 2 j in
        rw
          (
            set_byte-join {E = ShredError} (z0 ∷ []) y1
                (z2 ∷ z3 ∷ z4 ∷ z5 ∷ z6 ∷ z7 ∷ z8 ∷ z9 ∷ z10 ∷ z11 ∷ []) (encode code_variant) 64
                (omega (arith, h0)),
            copy-join {E = ShredError} (z0 ∷ tag ∷ []) z2
                (z3 ∷ z4 ∷ z5 ∷ z6 ∷ z7 ∷ z8 ∷ z9 ∷ z10 ∷ z11 ∷ []) slot 65 73 (omega (arith, h0))
                (omega (arith, h2)) (omega (arith, h2, l2)),
            hi,
            copy-join {E = ShredError} (z0 ∷ tag ∷ slot ∷ []) z3
                (z4 ∷ z5 ∷ z6 ∷ z7 ∷ z8 ∷ z9 ∷ z10 ∷ z11 ∷ []) index_bytes 73 77
                (omega (arith, h0, l2)) (omega (arith, h3)) (omega (arith, h3, l3)),
            copy-join {E = ShredError} (z0 ∷ tag ∷ slot ∷ index_bytes ∷ []) z4
                (z5 ∷ z6 ∷ z7 ∷ z8 ∷ z9 ∷ z10 ∷ z11 ∷ []) version 77 79 (omega (arith, h0, l2, l3))
                (omega (arith, h4)) (omega (arith, h4, l4)),
            copy-join {E = ShredError} (z0 ∷ tag ∷ slot ∷ index_bytes ∷ version ∷ []) z5
                (z6 ∷ z7 ∷ z8 ∷ z9 ∷ z10 ∷ z11 ∷ []) fec 79 83 (omega (arith, h0, l2, l3, l4))
                (omega (arith, h5)) (omega (arith, h5, l5)),
            copy-join {E = ShredError} (z0 ∷ tag ∷ slot ∷ index_bytes ∷ version ∷ fec ∷ []) z6
                (z7 ∷ z8 ∷ z9 ∷ z10 ∷ z11 ∷ []) count 83 85 (omega (arith, h0, l2, l3, l4, l5))
                (omega (arith, h6)) (omega (arith, h6, l6)),
            copy-join {E = ShredError} (z0 ∷ tag ∷ slot ∷ index_bytes ∷ version ∷ fec ∷ count ∷ [])
                z7 (z8 ∷ z9 ∷ z10 ∷ z11 ∷ []) count 85 87 (omega (arith, h0, l2, l3, l4, l5, l6))
                (omega (arith, h7)) (omega (arith, h7, l6)),
            copy-join {E = ShredError}
                (z0 ∷ tag ∷ slot ∷ index_bytes ∷ version ∷ fec ∷ count ∷ count ∷ []) z8
                (z9 ∷ z10 ∷ z11 ∷ []) position 87 89 (omega (arith, h0, l2, l3, l4, l5, l6))
                (omega (arith, h8)) (omega (arith, h8, l8)),
            copy-join {E = ShredError}
                (z0 ∷ tag ∷ slot ∷ index_bytes ∷ version ∷ fec ∷ count ∷ count ∷ position ∷ z9 ∷ [])
                z10 (z11 ∷ []) params.chained_root 1076 1108
                (omega (arith, h0, l2, l3, l4, l5, l6, l8, h9)) (omega (arith, h10))
                (omega (arith, h10, chained)),
          )
          refl

    pub fill_code_lem :
        (j index : ℕ)
        → add_u32 c params.fec_set_index j ≡ ok index
        → fill_code c params j (zeros 1228)
          ≡ ok (whole params (zeros 64) (code_body params index j (zeros 987)) (zeros 120))
    unfolding encode
    fill_code_lem j index hi =
        let blank =
          zeros-join (64 ∷ 1 ∷ 8 ∷ 4 ∷ 2 ∷ 4 ∷ 2 ∷ 2 ∷ 2 ∷ 987 ∷ 32 ∷ 120 ∷ []) 1228 refl in
        ap (fill_code c params j) blank
        ∙ code_writes j index (zeros 64) (zeros 8) (zeros 4) (zeros 2) (zeros 4) (zeros 2) (zeros 2)
            (zeros 2) (zeros 987) (zeros 32) (zeros 120) 0 hi refl refl refl refl refl refl refl
            refl refl refl
