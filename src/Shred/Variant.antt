-- ===== src/Shred/Variant.antt =====
-- Constants, errors and the variant byte of crates/shred/src/lib.rs.
use lattica.Prelude.{ℕ, Bool, true, false, ◌==◌, if◌then◌else◌, bit_and, bit_or}
use lattica.Prelude.Outcome.{Outcome, ok, err}
pub mod RoundTrip

abbrev pub size_of_signature : ℕ
size_of_signature = 64

abbrev pub size_of_common_header : ℕ
size_of_common_header = 83

abbrev pub size_of_merkle_root : ℕ
size_of_merkle_root = 32

abbrev pub size_of_proof_entry : ℕ
size_of_proof_entry = 20

abbrev pub size_of_retransmitter_sig : ℕ
size_of_retransmitter_sig = 64

abbrev pub data_shreds_per_fec : ℕ
data_shreds_per_fec = 32

abbrev pub coding_shreds_per_fec : ℕ
coding_shreds_per_fec = 32

abbrev pub shreds_per_fec : ℕ
shreds_per_fec = 64

abbrev pub proof_entries_for_32_32 : ℕ
proof_entries_for_32_32 = 6

abbrev pub data_shred_payload_size : ℕ
data_shred_payload_size = 1203

abbrev pub coding_shred_payload_size : ℕ
coding_shred_payload_size = 1228

abbrev pub data_shred_flags_offset : ℕ
data_shred_flags_offset = 85

abbrev pub shred_flag_data_complete : ℕ
shred_flag_data_complete = 0b0100_0000

abbrev pub shred_flag_last_in_slot : ℕ
shred_flag_last_in_slot = 0b1000_0000

pub data ShredError : Type 0 where
  payload_too_small : ℕ → ShredError
  unknown_variant : ℕ → ShredError
  invalid_signature_bytes : ShredError
  invalid_pubkey_bytes : ShredError
  merkle_root_mismatch : ShredError
  signature_verify_failed : ShredError
  proof_size_overflow : ℕ → ShredError

pub data ShredKind : Type 0 where
  data_shred code_shred : ShredKind

pub record ShredVariant : Type 0 where
  pub kind : ShredKind
  pub proof_size : ℕ
  pub chained : Bool
  pub resigned : Bool

abbrev chained_variant : ℕ → ShredKind → Bool → ShredVariant
chained_variant proof_size kind resigned = record {
  kind = kind;
  proof_size = proof_size;
  chained = true;
  resigned = resigned;
}

unfoldable pub decode : ℕ → Outcome ShredError ShredVariant
decode byte =
    let proof_size = bit_and byte 0x0f in
    let hi = bit_and byte 0xf0 in
    if hi == 0x60
    then ok (chained_variant proof_size code_shred false)
    else if hi == 0x70
    then ok (chained_variant proof_size code_shred true)
    else if hi == 0x90
    then ok (chained_variant proof_size data_shred false)
    else if hi == 0xb0
    then ok (chained_variant proof_size data_shred true)
    else err (unknown_variant byte)

-- The `match` of `encode`.
abbrev pub high_bits : ShredKind → Bool → ℕ
high_bits code_shred false = 0x60
high_bits code_shred true = 0x70
high_bits data_shred false = 0x90
high_bits data_shred true = 0xb0

unfoldable pub encode : ShredVariant → ℕ
encode v = bit_or (high_bits v.kind v.resigned) (bit_and v.proof_size 0x0f)
