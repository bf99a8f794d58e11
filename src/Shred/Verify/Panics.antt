-- ===== src/Shred/Verify/Panics.antt =====
-- `verify_shred` adds no panic to those of `parse_shred`.
use lattica.Prelude.{
  ℕ, ◌%◌, Bool, true, ◌==◌, length, All, ◌≡◌, ◌≢◌, refl, sym, ◌∙◌, ◌↔◌, inl, inr, Bool-cases,
  Option-cases,
}
use lattica.Prelude.Bytes.{Bytes, IsByte}
use lattica.Prelude.Outcome.{panic, >>=-eq-panic}
use lattica.Shred.Parse.{ParsedShred, parse_shred}
use lattica.Shred.Parse.Ranges.{IsBackward, parse_shred-IsParsed, parse_shred-panic_iff}
use lattica.Shred.Merkle.{Sha256, hash_leaf, chunks_exact, climb, compute_merkle_root}
use lattica.Shred.Verify.{Ed25519, check_signature, recover_root, verify_shred}
use lattica.Shred.Verify.Authentic.{leaf_bytes, proof_bytes, recover_root_lem}

compute_merkle_root-ne-panic :
    (sha : Sha256) (i : ℕ) (leaf proof : Bytes) → compute_merkle_root sha i leaf proof ≢ panic
unfolding compute_merkle_root
compute_merkle_root-ne-panic sha i leaf proof h = elim (Bool-cases (length proof % 20 == 0)) [
  | inl e ↦ elim (Bool-cases ((climb sha i leaf (chunks_exact 20 proof)).0 == 0)) [
    | inl z ↦ cc (rw (e, z) at h)
    | inr z ↦ cc (rw (e, z) at h)
  ]
  | inr e ↦ cc (rw e at h)
]

check_signature-ne-panic :
    (ed : Ed25519) (leader : Bytes) (p : ParsedShred) (root : Bytes)
    → check_signature ed leader p root ≢ panic
unfolding check_signature
check_signature-ne-panic ed leader p root h = elim (Option-cases (ed.key_from_bytes leader)) [
  | inl e ↦ cc (rw e at h)
  | inr (k, e) ↦ elim (Option-cases (ed.signature_from_slice p.header.signature)) [
    | inl f ↦ cc (rw (e, f) at h)
    | inr (g, f) ↦ elim (Bool-cases (ed.verify k root g)) [
      | inl t ↦ cc (rw (e, f, t) at h)
      | inr t ↦ cc (rw (e, f, t) at h)
    ]
  ]
]

-- `verify_shred` panics exactly where the build checks overflow and the bytes are a data shred whose
-- index is below the index of its FEC set; in a build without the checks it never panics.
pub verify_shred-panic_iff :
    (c : Bool) (sha : Sha256) (ed : Ed25519) (raw leader : Bytes)
    → All IsByte raw
    → (verify_shred c sha ed raw leader ≡ panic) ↔ ((c ≡ true) × IsBackward raw)
unfolding verify_shred
verify_shred-panic_iff c sha ed raw leader bytes =
    let (to, from) = parse_shred-panic_iff c raw bytes in
    (
      λ h. elim (>>=-eq-panic (parse_shred c raw) _ h) [
        | inl e ↦ to e
        | inr (p, parsing, rest) ↦ elim (>>=-eq-panic (recover_root sha p) _ rest) [
          | inl e ↦ absurd (
              compute_merkle_root-ne-panic sha p.erasure_shard_index (hash_leaf sha (leaf_bytes p))
                (proof_bytes p)
                (sym (recover_root_lem (parse_shred-IsParsed c raw p bytes parsing) sha) ∙ e))
          | inr (root, _, stuck) ↦ absurd (check_signature-ne-panic ed leader p root stuck)
        ]
      ],
      λ k. rw (from k) refl,
    )
