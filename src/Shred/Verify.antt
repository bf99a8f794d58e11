-- ===== src/Shred/Verify.antt =====
-- `verify_shred` of crates/shred/src/lib.rs: parse, recover the Merkle root, check the leader's
-- signature over it.
--
-- Ed25519 is a record of the three operations that the code calls; `none` is their error.
use lattica.Prelude.{ℕ, Bool, true, false, Option, none, some, if◌then◌else◌}
use lattica.Prelude.Bytes.{Bytes}
use lattica.Prelude.Outcome.{Outcome, ok, err, panic, ◌>>=◌, slice}
use lattica.Shred.Variant.{
  ShredError, invalid_pubkey_bytes, invalid_signature_bytes, signature_verify_failed, ShredKind,
  shred_flag_last_in_slot, shred_flag_data_complete,
}
use lattica.Shred.Parse.{ParsedShred, parse_shred, has_flag}
use lattica.Shred.Merkle.{Sha256, merkle_leaf, compute_merkle_root}
pub mod Authentic
pub mod Binding
pub mod Panics
pub mod Accept

-- `VerifyingKey::from_bytes`, `Signature::from_slice` and `verify`.
pub record Ed25519 : Type 1 where
  pub VerifyingKey : Type 0
  pub Signature : Type 0
  pub key_from_bytes : Bytes → Option VerifyingKey
  pub signature_from_slice : Bytes → Option Signature
  pub verify : VerifyingKey → Bytes → Signature → Bool

pub record VerifiedShred : Type 0 where
  pub slot : ℕ
  pub fec_set_index : ℕ
  pub index : ℕ
  pub erasure_shard_index : ℕ
  pub merkle_root : Bytes
  pub chained_root : Option Bytes
  pub kind : ShredKind
  pub data_flags : Option ℕ

unfoldable pub is_last_in_slot : VerifiedShred → Bool
is_last_in_slot v = has_flag shred_flag_last_in_slot v.data_flags

unfoldable pub is_data_complete : VerifiedShred → Bool
is_data_complete v = has_flag shred_flag_data_complete v.data_flags

-- `map_err` of an `Option`'s absence.
abbrev pub or_error {ℓ} : {A : Type ℓ} → Option A → ShredError → Outcome ShredError A
or_error none e = err e
or_error (some a) e = ok a

abbrev pub verified : ParsedShred → Bytes → VerifiedShred
verified p root = record {
  slot = p.header.slot;
  fec_set_index = p.header.fec_set_index;
  index = p.header.index;
  erasure_shard_index = p.erasure_shard_index;
  merkle_root = root;
  chained_root = p.chained_root;
  kind = p.header.variant.kind;
  data_flags = p.data_flags;
}

-- The signature check of a shred that is parsed, over the root that was recovered from it.
unfoldable pub check_signature :
    (ed : Ed25519) → Bytes → ParsedShred → Bytes → Outcome ShredError VerifiedShred
check_signature ed leader_pubkey p root = do
  pk ← or_error (ed.key_from_bytes leader_pubkey) invalid_pubkey_bytes
  sig ← or_error (ed.signature_from_slice p.header.signature) invalid_signature_bytes
  if ed.verify pk root sig then ok (verified p root) else err signature_verify_failed

-- The root of a shred that is parsed.
unfoldable pub recover_root : Sha256 → ParsedShred → Outcome ShredError Bytes
recover_root sha p = do
  leaf ← merkle_leaf sha p
  proof ← slice p.raw p.proof_range.start p.proof_range.end
  compute_merkle_root sha p.erasure_shard_index leaf proof

unfoldable pub verify_shred :
    Bool → Sha256 → (ed : Ed25519) → Bytes → Bytes → Outcome ShredError VerifiedShred
verify_shred overflow_checks sha ed raw leader_pubkey = do
  p ← parse_shred overflow_checks raw
  root ← recover_root sha p
  check_signature ed leader_pubkey p root
