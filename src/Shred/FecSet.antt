-- ===== src/Shred/FecSet.antt =====
-- `build_fec_set` of crates/shred/src/fec_set.rs.
--
-- The 64 buffers are two lists, the data shreds and the coding shreds, until the leaves are taken. A
-- loop whose rounds work on one buffer each is `map_indexed` over the buffers.
use lattica.Prelude.{
  ℕ, zero, suc, ◌+◌, ◌-◌, ◌*◌, ◌%◌, ◌^◌, Bool, true, false, List, [], ◌∷◌, ◌++◌, leb, ltb,
  if◌then◌else◌, length, replicate, min,
}
use lattica.Prelude.Bytes.{Bytes, to_le_bytes}
use lattica.Prelude.Outcome.{Outcome, ok, err, panic, ◌>>=◌, slice}
use lattica.Prelude.Buffers.{copy_from_slice, set_byte}
use lattica.Shred.Variant.{
  ShredError, payload_too_small, proof_size_overflow, ShredVariant, data_shred, code_shred, encode,
  size_of_signature, size_of_proof_entry, proof_entries_for_32_32, data_shreds_per_fec,
  coding_shreds_per_fec, data_shred_payload_size, coding_shred_payload_size,
}
use lattica.Shred.Erasure.{ReedSolomon}
use lattica.Shred.Merkle.{Sha256, hash_leaf, Tree, build_tree, merkle_proof}
pub mod Loops
pub mod Layout
pub mod CodeLayout
pub mod Chunks
pub mod Build
pub mod Filled
pub mod Seal
pub mod Fields
pub mod Accepted
pub mod Results
pub mod RoundTrip
pub mod Payload

abbrev pub erasure_shard_size : ℕ
erasure_shard_size = 987

-- `DATA_BUF_END - DATA_BUF`
abbrev pub data_capacity_per_shred : ℕ
data_capacity_per_shred = 1051 - 88

-- The offset of the Merkle proof of the `i`-th shred.
abbrev pub proof_offset : ℕ → ℕ
proof_offset i = if ltb i data_shreds_per_fec then 1083 else 1108

-- `ed25519_dalek::SigningKey`.
pub record Signer : Type 1 where
  pub SigningKey : Type 0
  pub sign : SigningKey → Bytes → Bytes
  pub verifying_key : SigningKey → Bytes

pub record FecSetParams (K : Type 0) : Type 0 where
  pub slot : ℕ
  pub fec_set_index : ℕ
  pub version : ℕ
  pub parent_offset : ℕ
  pub flags : ℕ
  pub chained_root : Bytes
  pub signing_key : K

pub record FecSet : Type 0 where
  pub shreds : List Bytes
  pub merkle_root : Bytes
  pub leader_pubkey : Bytes
  pub signature : Bytes

abbrev pub data_variant : ShredVariant
data_variant = record {
  kind = data_shred;
  proof_size = proof_entries_for_32_32;
  chained = true;
  resigned = false;
}

abbrev pub code_variant : ShredVariant
code_variant = record {
  kind = code_shred;
  proof_size = proof_entries_for_32_32;
  chained = true;
  resigned = false;
}

-- `a + b` on a `u32`.
unfoldable pub add_u32 : Bool → ℕ → ℕ → Outcome ShredError ℕ
add_u32 overflow_checks a b =
    if ltb (a + b) (2 ^ 32)
    then ok (a + b)
    else if overflow_checks
    then panic
    else ok ((a + b) % 2 ^ 32)

-- The part of the payload that the `i`-th data shred carries.
unfoldable pub payload_slice : Bytes → ℕ → Outcome ShredError Bytes
payload_slice payload i =
    let off = i * data_capacity_per_shred in
    if ltb off (length payload)
    then slice payload off (min (off + data_capacity_per_shred) (length payload))
    else ok []

-- The body of the loop over the data shreds, for the `i`-th buffer.
unfoldable pub fill_data :
    {K : Type 0} → Bool → Bytes → FecSetParams K → ℕ → Bytes → Outcome ShredError Bytes
fill_data overflow_checks payload params i buf = do
  buf ← set_byte buf 64 (encode data_variant)
  buf ← copy_from_slice buf 65 73 (to_le_bytes 8 params.slot)
  index ← add_u32 overflow_checks params.fec_set_index i
  buf ← copy_from_slice buf 73 77 (to_le_bytes 4 index)
  buf ← copy_from_slice buf 77 79 (to_le_bytes 2 params.version)
  buf ← copy_from_slice buf 79 83 (to_le_bytes 4 params.fec_set_index)
  buf ← copy_from_slice buf 83 85 (to_le_bytes 2 params.parent_offset)
  buf ← set_byte buf 85 params.flags
  chunk ← payload_slice payload i
  buf ← copy_from_slice buf 88 (88 + length chunk) chunk
  buf ← copy_from_slice buf 86 88 (to_le_bytes 2 ((88 + length chunk) % 2 ^ 16))
  copy_from_slice buf 1051 1083 params.chained_root

-- The body of the loop over the coding shreds, for the `j`-th of them.
unfoldable pub fill_code :
    {K : Type 0} → Bool → FecSetParams K → ℕ → Bytes → Outcome ShredError Bytes
fill_code overflow_checks params j buf = do
  buf ← set_byte buf 64 (encode code_variant)
  buf ← copy_from_slice buf 65 73 (to_le_bytes 8 params.slot)
  index ← add_u32 overflow_checks params.fec_set_index j
  buf ← copy_from_slice buf 73 77 (to_le_bytes 4 index)
  buf ← copy_from_slice buf 77 79 (to_le_bytes 2 params.version)
  buf ← copy_from_slice buf 79 83 (to_le_bytes 4 params.fec_set_index)
  buf ← copy_from_slice buf 83 85 (to_le_bytes 2 data_shreds_per_fec)
  buf ← copy_from_slice buf 85 87 (to_le_bytes 2 coding_shreds_per_fec)
  buf ← copy_from_slice buf 87 89 (to_le_bytes 2 j)
  copy_from_slice buf 1076 1108 params.chained_root

-- A loop over a list, with the index of each element.
unfoldable pub map_indexed {ℓ κ μ} :
    {E : Type ℓ} {A : Type κ} {B : Type μ} → (ℕ → A → Outcome E B) → ℕ → List A → Outcome E (List B)
map_indexed f i [] = ok []
map_indexed f i (a ∷ others) = do b ← f i a; rest ← map_indexed f (suc i) others; ok (b ∷ rest)

-- `map_err(|_| ShredError::ProofSizeOverflow(0))`
abbrev pub rs_error {ℓ κ} : {E : Type ℓ} {A : Type κ} → Outcome E A → Outcome ShredError A
rs_error (ok a) = ok a
rs_error (err e) = err (proof_size_overflow 0)
rs_error panic = panic

-- The parity shards of the data shreds' erasure regions.
unfoldable pub encode_parity : ReedSolomon → List Bytes → Outcome ShredError (List Bytes)
encode_parity rs data_shreds = do
  shards ←
      map_indexed (λ i buf. slice buf size_of_signature (size_of_signature + erasure_shard_size)) 0
        data_shreds
  codec ← rs_error (rs.new data_shreds_per_fec coding_shreds_per_fec)
  rs_error (
      rs.encode_sep codec shards (replicate coding_shreds_per_fec (replicate erasure_shard_size 0)))

-- The loop over the parity shards; a shard with no buffer is an index out of range.
unfoldable pub write_parity : List Bytes → List Bytes → Outcome ShredError (List Bytes)
write_parity bufs [] = ok bufs
write_parity [] (parity ∷ rest) = panic
write_parity (buf ∷ bufs) (parity ∷ rest) = do
  written ← copy_from_slice buf 89 1076 parity
  others ← write_parity bufs rest
  ok (written ∷ others)

unfoldable pub take_leaf : Sha256 → ℕ → Bytes → Outcome ShredError Bytes
take_leaf sha i buf = do msg ← slice buf size_of_signature (proof_offset i); ok (hash_leaf sha msg)

unfoldable pub write_proof : Tree → ℕ → Bytes → Outcome ShredError Bytes
write_proof tree i buf =
    copy_from_slice buf (proof_offset i)
      (proof_offset i + proof_entries_for_32_32 * size_of_proof_entry) (merkle_proof tree i)

unfoldable pub write_signature : Bytes → ℕ → Bytes → Outcome ShredError Bytes
write_signature sig_bytes i buf = copy_from_slice buf 0 size_of_signature sig_bytes

-- From the headers on: the parity shards are written.
unfoldable pub fill_shreds :
    {K : Type 0} → Bool → ReedSolomon → Bytes → FecSetParams K → Outcome ShredError (List Bytes)
fill_shreds overflow_checks rs payload params = do
  let blank_data = replicate data_shreds_per_fec (replicate data_shred_payload_size 0)
  let blank_code = replicate coding_shreds_per_fec (replicate coding_shred_payload_size 0)
  data_shreds ← map_indexed (fill_data overflow_checks payload params) 0 blank_data
  headers ← map_indexed (fill_code overflow_checks params) 0 blank_code
  parity ← encode_parity rs data_shreds
  coding_shreds ← write_parity headers parity
  ok (data_shreds ++ coding_shreds)

-- Leaves, tree, proofs and signature.
unfoldable pub seal_shreds :
    Sha256 → (signer : Signer) → signer.SigningKey → List Bytes → Outcome ShredError FecSet
seal_shreds sha signer key filled = do
  leaves ← map_indexed (take_leaf sha) 0 filled
  tree ← build_tree sha leaves
  proved ← map_indexed (write_proof tree) 0 filled
  let sig_bytes = signer.sign key tree.root
  shreds ← map_indexed (write_signature sig_bytes) 0 proved
  ok (record {
    shreds = shreds;
    merkle_root = tree.root;
    leader_pubkey = signer.verifying_key key;
    signature = sig_bytes;
  })

unfoldable pub build_fec_set :
    Bool
    → Sha256
    → ReedSolomon
    → (signer : Signer) → Bytes
    → FecSetParams signer.SigningKey
    → Outcome ShredError FecSet
build_fec_set overflow_checks sha rs signer payload params =
    if ltb (data_capacity_per_shred * data_shreds_per_fec) (length payload)
    then err (payload_too_small (length payload))
    else do
      filled ← fill_shreds overflow_checks rs payload params
      seal_shreds sha signer params.signing_key filled
