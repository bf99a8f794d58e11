-- ===== src/Shred/FecSet/Fields.antt =====
-- The header fields of a shred that `build_fec_set` wrote, read back.
use lattica.Prelude.{ℕ, ◌^◌, ◌<◌, List, [], ◌∷◌, length, ◌≡◌, refl, arith}
use lattica.Prelude.Bytes.{Bytes, to_le_bytes, length-to_le_bytes}
use lattica.Prelude.Buffers.{join, get_or-join, number_segment}
use lattica.Shred.Parse.Shape.{number, byte}
use lattica.Shred.FecSet.{FecSetParams}
use lattica.Shred.FecSet.Build.{IsParams}

-- The fields that all shreds have, read back.
pub record HasHeader {K : Type 0} (params : FecSetParams K) (raw : Bytes) (tag index : ℕ)
    : Type 0 where
  pub tag_eq : byte raw 64 ≡ tag
  pub slot_eq : number raw 65 73 ≡ params.slot
  pub index_eq : number raw 73 77 ≡ index
  pub version_eq : number raw 77 79 ≡ params.version
  pub fec_eq : number raw 79 83 ≡ params.fec_set_index

pub header_lem :
    {K : Type 0} (params : FecSetParams K) (sig : Bytes) (tag index : ℕ) (after : List Bytes)
    → IsParams params
    → index < 2 ^ 32
    → length sig ≡ 64
    → HasHeader params
        (join (
          sig
          ∷ (tag ∷ [])
          ∷ to_le_bytes 8 params.slot
          ∷ to_le_bytes 4 index
          ∷ to_le_bytes 2 params.version
          ∷ to_le_bytes 4 params.fec_set_index
          ∷ after))
        tag
        index
header_lem params sig tag index after valid small hs =
    let slot = to_le_bytes 8 params.slot in
    let position = to_le_bytes 4 index in
    let version = to_le_bytes 2 params.version in
    let fec = to_le_bytes 4 params.fec_set_index in
    let l2 = length-to_le_bytes 8 params.slot in
    let l3 = length-to_le_bytes 4 index in
    let l4 = length-to_le_bytes 2 params.version in
    let t = tag ∷ [] in
    let bounds = valid.index_range in
    record {
      tag_eq =
          get_or-join (sig ∷ []) tag (slot ∷ position ∷ version ∷ fec ∷ after) 64
            (omega (arith, hs));
      slot_eq =
          number_segment (sig ∷ t ∷ []) 8 params.slot (position ∷ version ∷ fec ∷ after) 65 73
            (omega (arith, valid.slot_range)) (omega (arith, hs)) refl;
      index_eq =
          number_segment (sig ∷ t ∷ slot ∷ []) 4 index (version ∷ fec ∷ after) 73 77 (omega arith)
            (omega (arith, hs, l2)) refl;
      version_eq =
          number_segment (sig ∷ t ∷ slot ∷ position ∷ []) 2 params.version (fec ∷ after) 77 79
            (omega (arith, valid.version_range)) (omega (arith, hs, l2, l3)) refl;
      fec_eq =
          number_segment (sig ∷ t ∷ slot ∷ position ∷ version ∷ []) 4 params.fec_set_index after 79
            83 (omega arith) (omega (arith, hs, l2, l3, l4)) refl;
    }
