-- ===== src/Shred/Erasure.antt =====
-- The erasure code that crates/shred encodes with and crates/reedsol reconstructs with: the crate
-- reed-solomon-erasure, as a record of the calls. A call that mutates its shards returns them.
use lattica.Prelude.{ℕ, ◌<◌, Option, List, length, All, ◌≡◌}
use lattica.Prelude.Bytes.{Bytes}
use lattica.Prelude.Outcome.{Outcome, ok}

-- `ReedSolomon::new`, `encode_sep` and `reconstruct`.
pub record ReedSolomon : Type 1 where
  pub Codec : Type 0
  pub Error : Type 0
  pub new : ℕ → ℕ → Outcome Error Codec
  pub encode_sep : Codec → List Bytes → List Bytes → Outcome Error (List Bytes)
  pub reconstruct_with : Codec → List (Option Bytes) → Outcome Error (List (Option Bytes))

-- A shard of `n` bytes.
abbrev pub IsShard : ℕ → Bytes → Type 0
IsShard n shard = length shard ≡ n

-- A codec for 32 data and 32 parity shards exists, and fills parity shards of the length that all
-- shards have, where they are not empty.
pub record IsEncoder (rs : ReedSolomon) : Type 0 where
  pub codec : rs.Codec
  pub new-ok : rs.new 32 32 ≡ ok codec
  pub encodes :
      (n : ℕ) (shards blank : List Bytes)
      → 0 < n
      → length shards ≡ 32
      → length blank ≡ 32
      → All (IsShard n) shards
      → All (IsShard n) blank
      → (parity : List Bytes) × (rs.encode_sep codec shards blank ≡ ok parity)
        × (length parity ≡ 32)
        × All (IsShard n) parity
