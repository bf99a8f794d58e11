-- ===== src/Shred/FecSet/Build.antt =====
-- What `build_fec_set` writes: 64 shreds, segment by segment.
use lattica.Prelude.{
  ℕ, zero, suc, ◌+◌, ◌-◌, ◌%◌, ◌^◌, ◌≤◌, ◌<◌, Bool, List, [], ◌∷◌, ◌++◌, length, length-replicate,
  get_or, ltb, lt→ltb, le→ltb_false, if◌then◌else◌, ◌≡◌, refl, ap, ◌∙◌, arith,
}
use lattica.Prelude.Bytes.{Bytes, length-to_le_bytes}
use lattica.Prelude.Outcome.{ok, slice, slice_lem}
use lattica.Prelude.Buffers.{copy_from_slice, join, sizes, length-join, field-join}
use lattica.Shred.Variant.{ShredError}
use lattica.Shred.FecSet.{FecSetParams, add_u32, write_parity}
use lattica.Shred.FecSet.Loops.{tabulate}
use lattica.Shred.FecSet.Layout.{region, data_body, code_body, whole}
use lattica.Shred.FecSet.Chunks.{chunk_of}

-- Parameters in the ranges of their types, for a FEC set whose indices are below `2 ^ 32`.
pub record IsParams {K : Type 0} (params : FecSetParams K) : Type 0 where
  pub slot_range : params.slot < 2 ^ 64
  pub index_range : params.fec_set_index + 32 ≤ 2 ^ 32
  pub version_range : params.version < 2 ^ 16
  pub root_len : length params.chained_root ≡ 32

pub add_u32_lem : (c : Bool) (a b : ℕ) → a + b < 2 ^ 32 → add_u32 c a b ≡ ok (a + b)
unfolding add_u32
add_u32_lem c a b h = rw (lt→ltb (a + b) (2 ^ 32) h) refl

pub write_parity_table :
    (g p h : ℕ → Bytes) (i n : ℕ)
    → ((k : ℕ)
        → i ≤ k
        → k < i + n
        → copy_from_slice {E = ShredError} (g k) 89 1076 (p k) ≡ ok (h k))
    → write_parity (tabulate g i n) (tabulate p i n) ≡ ok (tabulate h i n)
unfolding write_parity
write_parity_table g p h i zero e = refl
write_parity_table g p h i (suc n) e =
    rw
      (
        e i (omega arith) (omega arith),
        write_parity_table g p h (suc i) n (λ k lo hi. e k (omega arith) (omega arith)),
      )
      refl

module _ {K : Type 0} (params : FecSetParams K) (valid : IsParams params) where
  pub length-region :
      (index : ℕ) (chunk : Bytes)
      → length chunk ≤ 963
      → length (join (region params index chunk)) ≡ 987
  length-region index chunk fits = omega (
    arith,
    fits,
    length-join (region params index chunk),
    length-to_le_bytes 8 params.slot,
    length-to_le_bytes 4 index,
    length-to_le_bytes 2 params.version,
    length-to_le_bytes 4 params.fec_set_index,
    length-to_le_bytes 2 params.parent_offset,
    length-to_le_bytes 2 ((88 + length chunk) % 2 ^ 16),
    length-replicate {A = ℕ} (963 - length chunk) 0,
  )

  pub sizes-code_body :
      (index j : ℕ) (parity : Bytes)
      → length parity ≡ 987
      → sizes (code_body params index j parity) ≡ 1044
  sizes-code_body index j parity h = omega (
    arith,
    h,
    valid.root_len,
    length-to_le_bytes 8 params.slot,
    length-to_le_bytes 4 index,
    length-to_le_bytes 2 params.version,
    length-to_le_bytes 4 params.fec_set_index,
    length-to_le_bytes 2 32,
    length-to_le_bytes 2 j,
  )

  -- The erasure region of a data shred.
  pub region_lem :
      (index : ℕ) (chunk sig proof : Bytes)
      → length chunk ≤ 963
      → length sig ≡ 64
      → slice {E = ShredError} (whole params sig (data_body params index chunk) proof) 64 1051
        ≡ ok (join (region params index chunk))
  region_lem index chunk sig proof fits hs =
      let r = length-region index chunk fits in
      let s = length-join (region params index chunk) in
      let buf = whole params sig (data_body params index chunk) proof in
      let total =
        length-join (sig ∷ (region params index chunk ++ (params.chained_root ∷ proof ∷ []))) in
      slice_lem {E = ShredError} buf 64 1051 (omega arith) (omega (arith, r, s, total, hs))
      ∙ ap ok (
          field-join (sig ∷ []) (region params index chunk) (params.chained_root ∷ proof ∷ []) 64
            1051 (omega (arith, hs)) (omega (arith, r, s)))

module _ {K : Type 0} (payload : Bytes) (params : FecSetParams K) where
  -- The segments of the `i`-th shred of the set.
  abbrev pub body_of : List Bytes → ℕ → List Bytes
  body_of parity i =
      if ltb i 32
      then data_body params (params.fec_set_index + i) (chunk_of payload i)
      else code_body params (params.fec_set_index + (i - 32)) (i - 32) (get_or parity (i - 32) [])

  pub body_of_data :
      (parity : List Bytes) (i : ℕ)
      → i < 32
      → body_of parity i ≡ data_body params (params.fec_set_index + i) (chunk_of payload i)
  body_of_data parity i h = rw (lt→ltb i 32 h) refl

  pub body_of_code :
      (parity : List Bytes) (j : ℕ)
      → body_of parity (32 + j) ≡ code_body params (params.fec_set_index + j) j (get_or parity j [])
  body_of_code parity j =
      let back : 32 + j - 32 ≡ j = omega arith in
      rw (le→ltb_false (32 + j) 32 (omega arith), back) refl
