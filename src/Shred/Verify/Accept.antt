-- ===== src/Shred/Verify/Accept.antt =====
-- Which shreds `verify_shred` accepts.
use lattica.Prelude.{inl, inr, Option-cases, Bool-cases, ap, ℕ, ◌<◌, Bool, true, some, ◌≡◌, refl}
use lattica.Prelude.Bytes.{Bytes}
use lattica.Prelude.Outcome.{ok, >>=-eq-ok}
use lattica.Shred.Variant.{ShredVariant}
use lattica.Shred.Variant.RoundTrip.{IsVariant}
use lattica.Shred.Parse.Shape.{field, byte, parsed, erasure_index, proof_start, proof_end}
use lattica.Shred.Parse.Ranges.{IsWellSized, parse_ok, parsed-IsParsed}
use lattica.Shred.Merkle.{Sha256, hash_leaf, compute_merkle_root}
use lattica.Shred.Parse.{ParsedShred, parse_shred}
use lattica.Shred.Verify.{
  recover_root, VerifiedShred, Ed25519, verified, check_signature, verify_shred,
}
use lattica.Shred.Verify.Authentic.{recover_root_lem}

-- What makes a shred acceptable under a leader's key.
pub record IsAcceptable (c : Bool) (sha : Sha256) (ed : Ed25519) (raw leader root : Bytes)
    (v : ShredVariant) (e : ℕ) : Type 0 where
  pub tag_byte : byte raw 64 < 256
  pub well_sized : IsWellSized raw v
  pub variant : IsVariant v
  pub index : erasure_index c raw v.kind ≡ ok e
  pub leads :
      compute_merkle_root sha e
        (hash_leaf sha (field raw 64 (proof_start v)))
        (field raw (proof_start v) (proof_end v))
      ≡ ok root
  pub key : ed.VerifyingKey
  pub leader_key : ed.key_from_bytes leader ≡ some key
  pub signature : ed.Signature
  pub carried : ed.signature_from_slice (field raw 0 64) ≡ some signature
  pub valid : ed.verify key root signature ≡ true

-- An acceptable shred is accepted, with the fields of its parse.
pub verify_shred_accepts :
    (c : Bool) (sha : Sha256) (ed : Ed25519) (raw leader root : Bytes) (v : ShredVariant) (e : ℕ)
    → IsAcceptable c sha ed raw leader root v e
    → verify_shred c sha ed raw leader ≡ ok (verified (parsed raw v e) root)
unfolding verify_shred check_signature
verify_shred_accepts c sha ed raw leader root v e a =
    rw
      (
        parse_ok c raw v e a.tag_byte a.well_sized a.index,
        recover_root_lem (parsed-IsParsed raw v e a.variant a.well_sized.has_payload) sha,
        a.leads,
        a.leader_key,
        a.carried,
        a.valid,
      )
      refl

check_signature-verified :
    (ed : Ed25519) (leader : Bytes) (p : ParsedShred) (root : Bytes) (v : VerifiedShred)
    → check_signature ed leader p root ≡ ok v
    → verified p root ≡ v
unfolding check_signature
check_signature-verified ed leader p root v h = elim (Option-cases (ed.key_from_bytes leader)) [
  | inl e ↦ cc (rw (check_signature, e) at h)
  | inr (k, e) ↦ elim (Option-cases (ed.signature_from_slice p.header.signature)) [
    | inl f ↦ cc (rw (check_signature, e, f) at h)
    | inr (g, f) ↦ elim (Bool-cases (ed.verify k root g)) [
      | inl t ↦ cc (rw (check_signature, e, f, t) at h)
      | inr t ↦ cc (rw (check_signature, e, f, t) at h)
    ]
  ]
]

-- An accepted shred was parsed, at the index that is returned.
pub verify_shred-parse :
    (c : Bool) (sha : Sha256) (ed : Ed25519) (raw leader : Bytes) (v : VerifiedShred)
    → verify_shred c sha ed raw leader ≡ ok v
    → (p : ParsedShred) × (parse_shred c raw ≡ ok p)
      × (p.erasure_shard_index ≡ v.erasure_shard_index)
unfolding verify_shred
verify_shred-parse c sha ed raw leader v h =
    let (p, parsing, rest) = >>=-eq-ok (parse_shred c raw) _ h in
    let (root, _, checked) = >>=-eq-ok (recover_root sha p) _ rest in
    (
      p,
      parsing,
      ap (λ (s : VerifiedShred). s.erasure_shard_index)
          (check_signature-verified ed leader p root v checked),
    )
