-- ===== src/Shred/FecSet/Filled.antt =====
-- The loops of `build_fec_set` up to the parity shards, one after the other.
use lattica.Prelude.{
  ℕ, ◌+◌, ◌<◌, Bool, List, [], ◌∷◌, ◌++◌, length, length-replicate, replicate, get_or, All-get_or,
  All-replicate, All, ◌≡◌, refl, sym, ap, ap₂, ◌∙◌, arith,
}
use lattica.Prelude.Bytes.{Bytes, to_le_bytes, length-to_le_bytes}
use lattica.Prelude.Outcome.{ok, slice}
use lattica.Prelude.Buffers.{copy_from_slice, join, copy-join}
use lattica.Shred.Variant.{ShredError}
use lattica.Shred.Erasure.{ReedSolomon, IsEncoder, IsShard}
use lattica.Shred.FecSet.{
  FecSetParams, add_u32, fill_data, fill_code, map_indexed, encode_parity, write_parity,
  fill_shreds,
}
use lattica.Shred.FecSet.Loops.{
  tabulate, length-tabulate, tabulate_shift, tabulate-append, All-tabulate, replicate_as_table,
  list_as_table, map_indexed_table,
}
use lattica.Shred.FecSet.Layout.{zeros, region, data_body, code_body, whole, fill_data_lem}
use lattica.Shred.FecSet.CodeLayout.{fill_code_lem}
use lattica.Shred.FecSet.Chunks.{chunk_of, payload_slice_lem, length-chunk_of}
use lattica.Shred.FecSet.Build.{
  IsParams, add_u32_lem, write_parity_table, length-region, region_lem, body_of, body_of_data,
  body_of_code,
}

module _ {K : Type 0} (c : Bool) (payload : Bytes) (params : FecSetParams K)
    (valid : IsParams params) where
  -- The `i`-th data shred before it is sealed.
  abbrev data_at : ℕ → Bytes
  data_at i =
      whole params (zeros 64) (data_body params (params.fec_set_index + i) (chunk_of payload i))
        (zeros 120)

  -- The `j`-th coding shred before it is sealed, with a parity shard.
  abbrev code_at : ℕ → Bytes → Bytes
  code_at j parity =
      whole params (zeros 64) (code_body params (params.fec_set_index + j) j parity) (zeros 120)

  abbrev region_at : ℕ → Bytes
  region_at i = join (region params (params.fec_set_index + i) (chunk_of payload i))

  index_ok : (i : ℕ) → i < 0 + 32 → add_u32 c params.fec_set_index i ≡ ok (params.fec_set_index + i)
  index_ok i h = let bound = valid.index_range in add_u32_lem c params.fec_set_index i (omega arith)

  data_shreds_lem :
      map_indexed (fill_data c payload params) 0 (replicate 32 (replicate 1203 0))
      ≡ ok (tabulate data_at 0 32)
  data_shreds_lem =
      ap (map_indexed (fill_data c payload params) 0) (replicate_as_table 32 0 (zeros 1203))
      ∙ map_indexed_table (fill_data c payload params) (λ k. zeros 1203) data_at 0 32
          (λ k lo hi.
            fill_data_lem params c payload valid.root_len k (params.fec_set_index + k)
              (chunk_of payload k) (index_ok k hi) (payload_slice_lem payload k)
              (length-chunk_of payload k))

  headers_lem :
      map_indexed (fill_code c params) 0 (replicate 32 (replicate 1228 0))
      ≡ ok (tabulate (λ j. code_at j (zeros 987)) 0 32)
  headers_lem =
      ap (map_indexed (fill_code c params) 0) (replicate_as_table 32 0 (zeros 1228))
      ∙ map_indexed_table (fill_code c params) (λ k. zeros 1228) (λ j. code_at j (zeros 987)) 0 32
          (λ k lo hi.
            fill_code_lem params c valid.root_len k (params.fec_set_index + k) (index_ok k hi))

  shards_lem :
      map_indexed (λ i buf. slice {E = ShredError} buf 64 (64 + 987)) 0 (tabulate data_at 0 32)
      ≡ ok (tabulate region_at 0 32)
  shards_lem =
      map_indexed_table (λ i buf. slice {E = ShredError} buf 64 (64 + 987)) data_at region_at 0 32
        (λ k lo hi.
          region_lem params valid (params.fec_set_index + k) (chunk_of payload k) (zeros 64)
            (zeros 120) (length-chunk_of payload k) (length-replicate {A = ℕ} 64 0))

  code_write :
      (j : ℕ) (parity : Bytes)
      → length parity ≡ 987
      → copy_from_slice {E = ShredError} (code_at j (zeros 987)) 89 1076 parity
        ≡ ok (code_at j parity)
  code_write j parity h =
      let index = params.fec_set_index + j in
      copy-join {E = ShredError}
        (zeros 64
          ∷ (0x66 ∷ [])
          ∷ to_le_bytes 8 params.slot
          ∷ to_le_bytes 4 index
          ∷ to_le_bytes 2 params.version
          ∷ to_le_bytes 4 params.fec_set_index
          ∷ to_le_bytes 2 32
          ∷ to_le_bytes 2 32
          ∷ to_le_bytes 2 j
          ∷ [])
        (zeros 987) (params.chained_root ∷ zeros 120 ∷ []) parity 89 1076
        (omega (
          arith,
          length-replicate {A = ℕ} 64 0,
          length-to_le_bytes 8 params.slot,
          length-to_le_bytes 4 index,
          length-to_le_bytes 2 params.version,
          length-to_le_bytes 4 params.fec_set_index,
          length-to_le_bytes 2 32,
          length-to_le_bytes 2 j,
        ))
        (omega (arith, length-replicate {A = ℕ} 987 0)) (h ∙ sym (length-replicate {A = ℕ} 987 0))

  abbrev filled_at : List Bytes → ℕ → Bytes
  filled_at parity i = whole params (zeros 64) (body_of payload params parity i) (zeros 120)

  written_lem :
      (parity : List Bytes)
      → length parity ≡ 32
      → All (IsShard 987) parity
      → write_parity (tabulate (λ j. code_at j (zeros 987)) 0 32) parity
        ≡ ok (tabulate (λ j. code_at j (get_or parity j [])) 0 32)
  written_lem parity count sized =
      ap (write_parity (tabulate (λ j. code_at j (zeros 987)) 0 32))
        (list_as_table parity [] ∙ ap (tabulate (λ k. get_or parity k []) 0) count)
      ∙ write_parity_table (λ j. code_at j (zeros 987)) (λ k. get_or parity k [])
          (λ j. code_at j (get_or parity j [])) 0 32
          (λ k lo hi.
            code_write k (get_or parity k [])
              (All-get_or (IsShard 987) parity k [] (omega (arith, count)) sized))

  both_lem :
      (parity : List Bytes)
      → tabulate data_at 0 32 ++ tabulate (λ j. code_at j (get_or parity j [])) 0 32
        ≡ tabulate (filled_at parity) 0 64
  both_lem parity =
      let front = tabulate_shift data_at (filled_at parity) 0 0 32 (λ k lt.
        let e : 0 + k ≡ k = omega arith in
        rw e (
          ap (λ b. whole params (zeros 64) b (zeros 120))
            (sym (body_of_data payload params parity k lt)))) in
      let back =
        tabulate_shift (λ j. code_at j (get_or parity j [])) (filled_at parity) 0 32 32
          (λ k lt.
            let e : 0 + k ≡ k = omega arith in
            rw e (
              ap (λ b. whole params (zeros 64) b (zeros 120))
                (sym (body_of_code payload params parity k)))) in
      ap₂ (λ a b. a ++ b) front back ∙ tabulate-append (filled_at parity) 0 32 32 32 refl

-- The parity shards of a set, and that the shreds are filled with them.
pub record IsFilled {K : Type 0} (c : Bool) (rs : ReedSolomon) (enc : IsEncoder rs)
    (payload : Bytes) (params : FecSetParams K) : Type 0 where
  pub parity : List Bytes
  pub count : length parity ≡ 32
  pub sized : All (IsShard 987) parity
  pub encoded :
      rs.encode_sep enc.codec
        (tabulate (λ i. join (region params (params.fec_set_index + i) (chunk_of payload i))) 0 32)
        (replicate 32 (replicate 987 0))
      ≡ ok parity
  pub filled :
      fill_shreds c rs payload params
      ≡ ok (
          tabulate
            (λ i. whole params (zeros 64) (body_of payload params parity i) (zeros 120))
            0
            64)

module _ {K : Type 0} (c : Bool) (rs : ReedSolomon) (enc : IsEncoder rs) (payload : Bytes)
    (params : FecSetParams K) (valid : IsParams params) where
  encode_parity_lem :
      (parity : List Bytes)
      → rs.encode_sep enc.codec
          (tabulate (region_at c payload params valid) 0 32)
          (replicate 32 (replicate 987 0))
        ≡ ok parity
      → encode_parity rs (tabulate (data_at c payload params valid) 0 32) ≡ ok parity
  unfolding encode_parity
  encode_parity_lem parity e = rw (shards_lem c payload params valid, enc.new-ok, e) refl

  pub fill_shreds-IsFilled : IsFilled c rs enc payload params
  unfolding fill_shreds
  fill_shreds-IsFilled =
      let (parity, encoded, count, sized) =
        enc.encodes 987 (tabulate (region_at c payload params valid) 0 32)
          (replicate 32 (replicate 987 0)) (omega arith)
          (length-tabulate (region_at c payload params valid) 0 32)
          (length-replicate {A = Bytes} 32 (replicate 987 0))
          (All-tabulate (IsShard 987) (region_at c payload params valid) 0 32 (λ k lo hi.
            length-region params valid (params.fec_set_index + k) (chunk_of payload k)
              (length-chunk_of payload k)))
          (All-replicate (IsShard 987) 32 (replicate 987 0) (length-replicate {A = ℕ} 987 0)) in
      record {
        parity = parity;
        count = count;
        sized = sized;
        encoded = encoded;
        filled =
            rw
              (
                data_shreds_lem c payload params valid,
                headers_lem c payload params valid,
                encode_parity_lem parity encoded,
                written_lem c payload params valid parity count sized,
              )
              (ap ok (both_lem c payload params valid parity));
      }
