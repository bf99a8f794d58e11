-- ===== src/Shred/Verify/Authentic.antt =====
-- What an accepted shred shows, and that checking a signature never panics.
use lattica.Prelude.{
  ◌-◌, ◌*◌, ◌≤◌, Bool, true, some, length, length-take, length-drop, drop, All, ◌≡◌, refl, sym,
  subst, ◌∙◌, inl, inr, Bool-cases, Option-cases, arith,
}
use lattica.Prelude.Bytes.{Bytes, IsByte}
use lattica.Prelude.Outcome.{ok, slice_lem, >>=-eq-ok}
use lattica.Shred.Parse.{ParsedShred, parse_shred}
use lattica.Shred.Parse.Shape.{field}
use lattica.Shred.Parse.Ranges.{IsParsed, parse_shred-IsParsed}
use lattica.Shred.Merkle.{Sha256, hash_leaf, merkle_leaf, compute_merkle_root}
use lattica.Shred.Verify.{
  Ed25519, VerifiedShred, verified, check_signature, recover_root, verify_shred,
}

-- The bytes under the leaf of a parsed shred, and the bytes of its proof.
abbrev pub leaf_bytes : ParsedShred → Bytes
leaf_bytes p = field p.raw p.leaf_range.start p.leaf_range.end

abbrev pub proof_bytes : ParsedShred → Bytes
proof_bytes p = field p.raw p.proof_range.start p.proof_range.end

module _ {raw : Bytes} {p : ParsedShred} (v : IsParsed raw p) where
  proof_in_buffer : p.proof_range.end ≤ length p.raw
  proof_in_buffer = rw v.same_raw (omega (arith, v.payload_end, v.in_buffer))

  -- Neither slice of a parsed shred is out of range.
  pub recover_root_lem :
      (sha : Sha256)
      → recover_root sha p
        ≡ compute_merkle_root sha p.erasure_shard_index
            (hash_leaf sha (leaf_bytes p))
            (proof_bytes p)
  unfolding recover_root merkle_leaf
  recover_root_lem sha =
      let inside = proof_in_buffer in
      rw
        (
          slice_lem p.raw p.leaf_range.start p.leaf_range.end
              (omega (arith, v.leaf_start, v.leaf_has_root))
              (omega (arith, v.leaf_end, v.proof_len)),
          slice_lem p.raw p.proof_range.start p.proof_range.end (omega (arith, v.proof_len)) inside,
        )
        refl

  -- The proof has `proof_size` entries.
  pub length-proof_bytes : length (proof_bytes p) ≡ 20 * p.header.variant.proof_size
  length-proof_bytes =
      let inside = proof_in_buffer in
      omega (
        arith,
        length-take (p.proof_range.end - p.proof_range.start) (drop p.proof_range.start p.raw),
        length-drop p.proof_range.start p.raw,
        v.proof_len,
      )

-- What is behind an accepted shred.
pub record IsAuthentic (c : Bool) (sha : Sha256) (ed : Ed25519) (raw leader : Bytes)
    (s : VerifiedShred) : Type 0 where
  pub shred : ParsedShred
  pub from_raw : parse_shred c raw ≡ ok shred
  pub fields : s ≡ verified shred s.merkle_root
  pub under_root :
      compute_merkle_root sha shred.erasure_shard_index
        (hash_leaf sha (leaf_bytes shred))
        (proof_bytes shred)
      ≡ ok s.merkle_root
  pub key : ed.VerifyingKey
  pub leader_key : ed.key_from_bytes leader ≡ some key
  pub signature : ed.Signature
  pub carried : ed.signature_from_slice shred.header.signature ≡ some signature
  pub signed : ed.verify key s.merkle_root signature ≡ true

module _ (c : Bool) (sha : Sha256) (ed : Ed25519) (raw leader : Bytes)
    (bytes : All IsByte raw) where
  check_signature_inv :
      (p : ParsedShred) (root : Bytes) (s : VerifiedShred)
      → check_signature ed leader p root ≡ ok s
      → (k : ed.VerifyingKey) × (g : ed.Signature) × (ed.key_from_bytes leader ≡ some k)
        × (ed.signature_from_slice p.header.signature ≡ some g)
        × (ed.verify k root g ≡ true)
        × (s ≡ verified p root)
  unfolding check_signature
  check_signature_inv p root s h = elim (Option-cases (ed.key_from_bytes leader)) [
    | inl e ↦ cc (rw e at h)
    | inr (k, e) ↦ elim (Option-cases (ed.signature_from_slice p.header.signature)) [
      | inl f ↦ cc (rw (e, f) at h)
      | inr (g, f) ↦ elim (Bool-cases (ed.verify k root g)) [
        | inl t ↦ (k, g, e, f, t, cc (rw (e, f, t) at h))
        | inr t ↦ cc (rw (e, f, t) at h)
      ]
    ]
  ]

  verified-IsAuthentic :
      (p : ParsedShred) (root : Bytes) (k : ed.VerifyingKey) (g : ed.Signature)
      → parse_shred c raw ≡ ok p
      → recover_root sha p ≡ ok root
      → ed.key_from_bytes leader ≡ some k
      → ed.signature_from_slice p.header.signature ≡ some g
      → ed.verify k root g ≡ true
      → IsAuthentic c sha ed raw leader (verified p root)
  verified-IsAuthentic p root k g parsing recovered key_eq sig_eq valid = record {
    shred = p;
    from_raw = parsing;
    fields = refl;
    under_root =
        sym (recover_root_lem (parse_shred-IsParsed c raw p bytes parsing) sha) ∙ recovered;
    key = k;
    leader_key = key_eq;
    signature = g;
    carried = sig_eq;
    signed = valid;
  }

  -- A shred is accepted only if it parses, its leaf and proof lead to the root that is returned, and
  -- the leader's key verifies the signature that the shred carries over that root; what is returned
  -- are the fields of that parse.
  pub verify_shred-IsAuthentic :
      (s : VerifiedShred)
      → verify_shred c sha ed raw leader ≡ ok s
      → IsAuthentic c sha ed raw leader s
  unfolding verify_shred
  verify_shred-IsAuthentic s h =
      let (p, parsing, rest) = >>=-eq-ok (parse_shred c raw) _ h in
      let (root, recovered, checked) = >>=-eq-ok (recover_root sha p) _ rest in
      let (k, g, key_eq, sig_eq, valid, fields) = check_signature_inv p root s checked in
      subst (IsAuthentic c sha ed raw leader) (sym fields)
        (verified-IsAuthentic p root k g parsing recovered key_eq sig_eq valid)
