-- ===== src/Shred/FecSet/Layout.antt =====
-- A filled buffer, segment by segment: what the writes of a round leave in a buffer of zeros.
use lattica.Prelude.{
  ℕ, zero, suc, ◌+◌, ◌-◌, ◌%◌, ◌^◌, ◌≤◌, Bool, List, [], ◌∷◌, ◌++◌, map, length, replicate,
  length-replicate, ◌≡◌, refl, ap, ◌∙◌, arith,
}
use lattica.Prelude.Bytes.{Bytes, to_le_bytes, length-to_le_bytes}
use lattica.Prelude.Outcome.{ok}
use lattica.Prelude.Buffers.{join, copy-join, set_byte-join}
use lattica.Shred.Variant.{ShredError, encode}
use lattica.Shred.FecSet.{FecSetParams, data_variant, add_u32, payload_slice, fill_data}

abbrev pub zeros : ℕ → Bytes
zeros n = replicate n 0

abbrev sum : List ℕ → ℕ
sum [] = 0
sum (n ∷ ns) = n + sum ns

zeros_split : (n m : ℕ) → zeros (n + m) ≡ zeros n ++ zeros m
zeros_split zero m = let e : zero + m ≡ m = omega arith in rw e refl
zeros_split (suc n) m =
    let e : suc n + m ≡ suc (n + m) = omega arith in rw e (ap (λ t. 0 ∷ t) (zeros_split n m))

pub zeros-join : (ws : List ℕ) (n : ℕ) → n ≡ sum ws → zeros n ≡ join (map zeros ws)
zeros-join [] n e = let none_left : n ≡ 0 = omega arith in rw none_left refl
zeros-join (w ∷ ws) n e =
    rw (e, zeros_split w (sum ws)) (ap (λ t. zeros w ++ t) (zeros-join ws (sum ws) refl))

module _ {K : Type 0} (params : FecSetParams K) where
  -- The segments of the erasure region of a data shred.
  abbrev pub region : ℕ → Bytes → List Bytes
  region index chunk =
      (0x96 ∷ [])
      ∷ to_le_bytes 8 params.slot
      ∷ to_le_bytes 4 index
      ∷ to_le_bytes 2 params.version
      ∷ to_le_bytes 4 params.fec_set_index
      ∷ to_le_bytes 2 params.parent_offset
      ∷ (params.flags ∷ [])
      ∷ to_le_bytes 2 ((88 + length chunk) % 2 ^ 16)
      ∷ chunk
      ∷ zeros (963 - length chunk)
      ∷ []

  -- The segments of a data shred between the signature and the proof.
  abbrev pub data_body : ℕ → Bytes → List Bytes
  data_body index chunk = region index chunk ++ (params.chained_root ∷ [])

  -- The segments of a coding shred between the signature and the proof.
  abbrev pub code_body : ℕ → ℕ → Bytes → List Bytes
  code_body index j parity =
      (0x66 ∷ [])
      ∷ to_le_bytes 8 params.slot
      ∷ to_le_bytes 4 index
      ∷ to_le_bytes 2 params.version
      ∷ to_le_bytes 4 params.fec_set_index
      ∷ to_le_bytes 2 32
      ∷ to_le_bytes 2 32
      ∷ to_le_bytes 2 j
      ∷ parity
      ∷ params.chained_root
      ∷ []

  -- A shred with these segments.
  abbrev pub whole : Bytes → List Bytes → Bytes → Bytes
  whole sig body proof = join (sig ∷ (body ++ (proof ∷ [])))

  module _ (c : Bool) (payload : Bytes) (chained : length params.chained_root ≡ 32) where
    data_writes :
        (i index : ℕ) (chunk : Bytes) (z0 z2 z3 z4 z5 z6 z8 z9 rest z10 z11 : Bytes) (y1 y7 : ℕ)
        → add_u32 c params.fec_set_index i ≡ ok index
        → payload_slice payload i ≡ ok chunk
        → length z0 ≡ 64
        → length z2 ≡ 8
        → length z3 ≡ 4
        → length z4 ≡ 2
        → length z5 ≡ 4
        → length z6 ≡ 2
        → length z8 ≡ 2
        → length z9 ≡ length chunk
        → length chunk + length rest ≡ 963
        → length z10 ≡ 32
        → fill_data c payload params i (
            join (
              z0
              ∷ (y1 ∷ [])
              ∷ z2
              ∷ z3
              ∷ z4
              ∷ z5
              ∷ z6
              ∷ (y7 ∷ [])
              ∷ z8
              ∷ z9
              ∷ rest
              ∷ z10
              ∷ z11
              ∷ []))
          ≡ ok (
              join (
                z0
                ∷ (encode data_variant ∷ [])
                ∷ to_le_bytes 8 params.slot
                ∷ to_le_bytes 4 index
                ∷ to_le_bytes 2 params.version
                ∷ to_le_bytes 4 params.fec_set_index
                ∷ to_le_bytes 2 params.parent_offset
                ∷ (params.flags ∷ [])
                ∷ to_le_bytes 2 ((88 + length chunk) % 2 ^ 16)
                ∷ chunk
                ∷ rest
                ∷ params.chained_root
                ∷ z11
                ∷ []))
    unfolding fill_data
    data_writes i index chunk z0 z2 z3 z4 z5 z6 z8 z9 rest z10 z11 y1 y7 hi hp h0 h2 h3 h4 h5 h6 h8
          h9 hr h10 =
        let tag = encode data_variant ∷ [] in
        let slot = to_le_bytes 8 params.slot in
        let index_bytes = to_le_bytes 4 index in
        let version = to_le_bytes 2 params.version in
        let fec = to_le_bytes 4 params.fec_set_index in
        let parent = to_le_bytes 2 params.parent_offset in
        let flags = params.flags ∷ [] in
        let size = to_le_bytes 2 ((88 + length chunk) % 2 ^ 16) in
        let l2 = length-to_le_bytes 8 params.slot in
        let l3 = length-to_le_bytes 4 index in
        let l4 = length-to_le_bytes 2 params.version in
        let l5 = length-to_le_bytes 4 params.fec_set_index in
        let l6 = length-to_le_bytes 2 params.parent_offset in
        let l8 = length-to_le_bytes 2 ((88 + length chunk) % 2 ^ 16) in
        rw
          (
            set_byte-join {E = ShredError} (z0 ∷ []) y1
                (z2 ∷ z3 ∷ z4 ∷ z5 ∷ z6 ∷ (y7 ∷ []) ∷ z8 ∷ z9 ∷ rest ∷ z10 ∷ z11 ∷ [])
                (encode data_variant) 64 (omega (arith, h0)),
            copy-join {E = ShredError} (z0 ∷ tag ∷ []) z2
                (z3 ∷ z4 ∷ z5 ∷ z6 ∷ (y7 ∷ []) ∷ z8 ∷ z9 ∷ rest ∷ z10 ∷ z11 ∷ []) slot 65 73
                (omega (arith, h0)) (omega (arith, h2)) (omega (arith, h2, l2)),
            hi,
            copy-join {E = ShredError} (z0 ∷ tag ∷ slot ∷ []) z3
                (z4 ∷ z5 ∷ z6 ∷ (y7 ∷ []) ∷ z8 ∷ z9 ∷ rest ∷ z10 ∷ z11 ∷ []) index_bytes 73 77
                (omega (arith, h0, l2)) (omega (arith, h3)) (omega (arith, h3, l3)),
            copy-join {E = ShredError} (z0 ∷ tag ∷ slot ∷ index_bytes ∷ []) z4
                (z5 ∷ z6 ∷ (y7 ∷ []) ∷ z8 ∷ z9 ∷ rest ∷ z10 ∷ z11 ∷ []) version 77 79
                (omega (arith, h0, l2, l3)) (omega (arith, h4)) (omega (arith, h4, l4)),
            copy-join {E = ShredError} (z0 ∷ tag ∷ slot ∷ index_bytes ∷ version ∷ []) z5
                (z6 ∷ (y7 ∷ []) ∷ z8 ∷ z9 ∷ rest ∷ z10 ∷ z11 ∷ []) fec 79 83
                (omega (arith, h0, l2, l3, l4)) (omega (arith, h5)) (omega (arith, h5, l5)),
            copy-join {E = ShredError} (z0 ∷ tag ∷ slot ∷ index_bytes ∷ version ∷ fec ∷ []) z6
                ((y7 ∷ []) ∷ z8 ∷ z9 ∷ rest ∷ z10 ∷ z11 ∷ []) parent 83 85
                (omega (arith, h0, l2, l3, l4, l5)) (omega (arith, h6)) (omega (arith, h6, l6)),
            set_byte-join {E = ShredError}
                (z0 ∷ tag ∷ slot ∷ index_bytes ∷ version ∷ fec ∷ parent ∷ []) y7
                (z8 ∷ z9 ∷ rest ∷ z10 ∷ z11 ∷ []) params.flags 85
                (omega (arith, h0, l2, l3, l4, l5, l6)),
            hp,
            copy-join {E = ShredError}
                (z0 ∷ tag ∷ slot ∷ index_bytes ∷ version ∷ fec ∷ parent ∷ flags ∷ z8 ∷ []) z9
                (rest ∷ z10 ∷ z11 ∷ []) chunk 88 (88 + length chunk)
                (omega (arith, h0, l2, l3, l4, l5, l6, h8)) (omega (arith, h9)) (omega (arith, h9)),
            copy-join {E = ShredError}
                (z0 ∷ tag ∷ slot ∷ index_bytes ∷ version ∷ fec ∷ parent ∷ flags ∷ []) z8
                (chunk ∷ rest ∷ z10 ∷ z11 ∷ []) size 86 88 (omega (arith, h0, l2, l3, l4, l5, l6))
                (omega (arith, h8)) (omega (arith, h8, l8)),
            copy-join {E = ShredError}
                (z0 ∷ tag ∷ slot ∷ index_bytes ∷ version ∷ fec ∷ parent ∷ flags ∷ size ∷ chunk
                  ∷ rest ∷ [])
                z10 (z11 ∷ []) params.chained_root 1051 1083
                (omega (arith, h0, l2, l3, l4, l5, l6, l8, hr)) (omega (arith, h10))
                (omega (arith, h10, chained)),
          )
          refl

    pub fill_data_lem :
        (i index : ℕ) (chunk : Bytes)
        → add_u32 c params.fec_set_index i ≡ ok index
        → payload_slice payload i ≡ ok chunk
        → length chunk ≤ 963
        → fill_data c payload params i (zeros 1203)
          ≡ ok (whole (zeros 64) (data_body index chunk) (zeros 120))
    unfolding encode
    fill_data_lem i index chunk hi hp fits =
        let n = length chunk in
        let blank =
          zeros-join (64 ∷ 1 ∷ 8 ∷ 4 ∷ 2 ∷ 4 ∷ 2 ∷ 1 ∷ 2 ∷ n ∷ (963 - n) ∷ 32 ∷ 120 ∷ []) 1203
            (omega (arith, fits)) in
        ap (fill_data c payload params i) blank
        ∙ data_writes i index chunk (zeros 64) (zeros 8) (zeros 4) (zeros 2) (zeros 4) (zeros 2)
            (zeros 2) (zeros n) (zeros (963 - n)) (zeros 32) (zeros 120) 0 0 hi hp refl refl refl
            refl refl refl refl (length-replicate {A = ℕ} n 0)
            (omega (arith, fits, length-replicate {A = ℕ} (963 - n) 0)) refl
