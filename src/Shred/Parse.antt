-- ===== src/Shred/Parse.antt =====
-- `parse_shred` of crates/shred/src/lib.rs.
--
-- Reads out of range and checked subtractions that fail are panics. Rust checks `u32` and `usize`
-- subtraction in a debug build and wraps it in a release build, so the functions take that setting
-- as `overflow_checks`.
use lattica.Prelude.{
  ℕ, ◌+◌, ◌-◌, ◌*◌, ◌%◌, ◌^◌, Bool, true, false, not, Option, none, some, List, length, ◌==◌, leb,
  ltb, if◌then◌else◌, get_elem?, bit_and,
}
use lattica.Prelude.Bytes.{Bytes, from_le_bytes}
use lattica.Prelude.Outcome.{Outcome, ok, err, panic, ◌>>=◌, slice}
use lattica.Shred.Variant.{
  ShredError, payload_too_small, proof_size_overflow, ShredKind, data_shred, code_shred,
  ShredVariant, decode, size_of_signature, size_of_common_header, size_of_merkle_root,
  size_of_proof_entry, size_of_retransmitter_sig, data_shreds_per_fec, data_shred_payload_size,
  coding_shred_payload_size, data_shred_flags_offset, shred_flag_last_in_slot,
  shred_flag_data_complete,
}
pub mod Shape
pub mod Ranges

pub record CommonHeader : Type 0 where
  pub signature : Bytes
  pub variant : ShredVariant
  pub slot : ℕ
  pub index : ℕ
  pub version : ℕ
  pub fec_set_index : ℕ

pub record Range : Type 0 where
  pub start : ℕ
  pub end : ℕ

pub record ParsedShred : Type 0 where
  pub raw : Bytes
  pub header : CommonHeader
  pub leaf_range : Range
  pub proof_range : Range
  pub chained_root : Option Bytes
  pub erasure_shard_index : ℕ
  pub data_flags : Option ℕ

-- `is_some_and(|f| f & mask != 0)`
abbrev pub has_flag : ℕ → Option ℕ → Bool
has_flag mask none = false
has_flag mask (some f) = not (bit_and f mask == 0)

unfoldable pub is_last_in_slot : ParsedShred → Bool
is_last_in_slot p = has_flag shred_flag_last_in_slot p.data_flags

unfoldable pub is_data_complete : ParsedShred → Bool
is_data_complete p = has_flag shred_flag_data_complete p.data_flags

abbrev Parse : Type 0 → Type 0
Parse A = Outcome ShredError A

-- `a - b` on a `w`-bit unsigned integer.
unfoldable pub sub_unsigned : Bool → ℕ → ℕ → ℕ → Outcome ShredError ℕ
sub_unsigned overflow_checks w a b =
    if leb b a then ok (a - b) else if overflow_checks then panic else ok ((a + 2 ^ w - b) % 2 ^ w)

-- `raw[i]`
pub byte_at : Bytes → ℕ → Outcome ShredError ℕ
byte_at raw i = elim (get_elem? raw i) [ none ↦ panic | some x ↦ ok x ]

-- `uN::from_le_bytes(raw[a..b].try_into().unwrap())`
pub read_le : Bytes → ℕ → ℕ → Outcome ShredError ℕ
read_le raw a b = do bytes ← slice raw a b; ok (from_le_bytes bytes)

pub parse_header : Bytes → Outcome ShredError CommonHeader
parse_header raw =
    if ltb (length raw) size_of_common_header then err (payload_too_small (length raw)) else do
      sig ← slice raw 0 size_of_signature
      tag ← byte_at raw 64
      variant ← decode tag
      slot ← read_le raw 65 73
      index ← read_le raw 73 77
      version ← read_le raw 77 79
      fec_set_index ← read_le raw 79 83
      ok (record {
        signature = sig;
        variant = variant;
        slot = slot;
        index = index;
        version = version;
        fec_set_index = fec_set_index;
      })

abbrev pub expected_len : ShredKind → ℕ
expected_len data_shred = data_shred_payload_size
expected_len code_shred = coding_shred_payload_size

abbrev pub resign_len : Bool → ℕ
resign_len resigned = if resigned then size_of_retransmitter_sig else 0

pub read_chained_root : Bool → Bytes → Bool → ℕ → Outcome ShredError (Option Bytes)
read_chained_root overflow_checks raw false proof_start = ok none
read_chained_root overflow_checks raw true proof_start = do
  cr_start ← sub_unsigned overflow_checks 64 proof_start size_of_merkle_root
  root ← slice raw cr_start proof_start
  ok (some root)

pub read_erasure_index : Bool → Bytes → ShredKind → ℕ → ℕ → Outcome ShredError ℕ
read_erasure_index overflow_checks raw data_shred index fec_set_index =
    sub_unsigned overflow_checks 32 index fec_set_index
read_erasure_index overflow_checks raw code_shred index fec_set_index = do
  position ← read_le raw 87 89
  ok (data_shreds_per_fec + position)

pub read_flags : Bytes → ShredKind → Outcome ShredError (Option ℕ)
read_flags raw data_shred = do flags ← byte_at raw data_shred_flags_offset; ok (some flags)
read_flags raw code_shred = ok none

-- The part of `parse_shred` that follows the guards on the length and on the proof size.
pub parse_tail : Bool → Bytes → CommonHeader → ℕ → ℕ → Outcome ShredError ParsedShred
parse_tail overflow_checks raw header proof_bytes resign_bytes = do
  let v = header.variant
  proof_end ← sub_unsigned overflow_checks 64 (expected_len v.kind) resign_bytes
  proof_start ← sub_unsigned overflow_checks 64 proof_end proof_bytes
  chained_root ← read_chained_root overflow_checks raw v.chained proof_start
  erasure_shard_index ←
      read_erasure_index overflow_checks raw v.kind header.index header.fec_set_index
  data_flags ← read_flags raw v.kind
  ok (record {
    raw = raw;
    header = header;
    leaf_range = record { start = size_of_signature; end = proof_start };
    proof_range = record { start = proof_start; end = proof_end };
    chained_root = chained_root;
    erasure_shard_index = erasure_shard_index;
    data_flags = data_flags;
  })

pub parse_shred : Bool → Bytes → Outcome ShredError ParsedShred
parse_shred overflow_checks raw = do
  header ← parse_header raw
  let v = header.variant
  let len = expected_len v.kind
  let proof_bytes = v.proof_size * size_of_proof_entry
  let resign_bytes = resign_len v.resigned
  if ltb (length raw) len
      then err (payload_too_small (length raw))
      else if ltb len (proof_bytes + resign_bytes + size_of_signature)
      then err (proof_size_overflow v.proof_size)
      else parse_tail overflow_checks raw header proof_bytes resign_bytes
