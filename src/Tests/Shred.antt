-- ===== src/Tests/Shred.antt =====
-- The theorems on shreds, applied.
use lattica.Prelude.{
  ℕ, ◌<◌, true, false, [], ltb, if◌then◌else◌, length, replicate, get_or, ◌≡◌, ◌↔◌, ◌⊎◌, refl,
  arith,
}
use lattica.Prelude.Bytes.{Bytes, from_le_bytes}
use lattica.Prelude.Outcome.{ok, err, panic, ◌>>=◌, slice}
use lattica.Shred.Variant.{payload_too_small, data_shred, ShredVariant, decode}
use lattica.Shred.Variant.RoundTrip.{IsVariant}
use lattica.Shred.Parse.{sub_unsigned, parse_shred, expected_len}
use lattica.Shred.Parse.Shape.{byte, parsed, erasure_index, parse_shred_shape}
use lattica.Shred.Parse.Ranges.{IsParsed, IsBackward, parse_shred-IsParsed, parse_ok}
use lattica.Shred.Merkle.{
  hash_leaf, hash_entries, chunks_of, chunks_exact, parent, climb, compute_merkle_root, merkle_leaf,
  Tree, build_tree, merkle_proof,
}
use lattica.Shred.Merkle.Proof.{merkle_round_trip}
use lattica.Shred.Merkle.Binding.{Collision, merkle_root_binds}
use lattica.Shred.Verify.{VerifiedShred, verified, check_signature, recover_root, verify_shred}
use lattica.Shred.Verify.Authentic.{leaf_bytes, IsAuthentic, verify_shred-IsAuthentic}
use lattica.Shred.Verify.Binding.{accepted_shreds_agree}
use lattica.Shred.Verify.Panics.{verify_shred-panic_iff}
use lattica.Tests.Fixtures.{
  toy_sha256, toy_sha256-IsSha256, toy_ed25519, shred, shred-IsByte, leader, backward,
  backward-IsByte, leaves,
}

abbrev variant_2 : ShredVariant
variant_2 = record { kind = data_shred; proof_size = 2; chained = true; resigned = false }

variant_2-IsVariant : IsVariant variant_2
variant_2-IsVariant = record { small = omega arith; is_chained = refl }

shred_parsed : parse_shred true shred ≡ ok (parsed shred variant_2 2)
shred_parsed =
    parse_ok true shred variant_2 2 (omega arith)
      (record { has_header = omega arith; tag = unfold decode in refl; has_payload = omega arith })
      (unfold sub_unsigned from_le_bytes in refl)

-- The toy digest repeats the length of its message: 66 bytes for a node.
abbrev root : Bytes
root = replicate 32 66

abbrev accepted : VerifiedShred
accepted = verified (parsed shred variant_2 2) root

shred_accepted : verify_shred true toy_sha256 toy_ed25519 shred leader ≡ ok accepted
unfolding verify_shred recover_root merkle_leaf hash_leaf compute_merkle_root chunks_of chunks_exact
    climb parent hash_entries check_signature slice
shred_accepted = rw shred_parsed refl

parse_shred_shape_example : parse_shred true shred ≡ (
    if ltb (length shred) 83
    then err (payload_too_small (length shred))
    else decode (byte shred 64) >>= λ v.
        if ltb (length shred) (expected_len v.kind)
        then err (payload_too_small (length shred))
        else erasure_index true shred v.kind >>= λ e. ok (parsed shred v e))
parse_shred_shape_example = parse_shred_shape true shred (omega arith)

parse_shred-IsParsed_example : IsParsed shred (parsed shred variant_2 2)
parse_shred-IsParsed_example =
    parse_shred-IsParsed true shred (parsed shred variant_2 2) shred-IsByte shred_parsed

merkle_round_trip_example :
    (tree : Tree) × (build_tree toy_sha256 leaves ≡ ok tree)
    × ((i : ℕ)
        → i < length leaves
        → compute_merkle_root toy_sha256 i (get_or leaves i []) (merkle_proof tree i)
          ≡ ok tree.root)
merkle_round_trip_example =
    merkle_round_trip toy_sha256 leaves toy_sha256-IsSha256 (refl, (refl, (refl, tt))) (omega arith)

one_step :
    (leaf : Bytes)
    → compute_merkle_root toy_sha256 1 (hash_leaf toy_sha256 leaf) (replicate 20 9) ≡ ok root
unfolding hash_leaf compute_merkle_root chunks_of chunks_exact climb parent hash_entries
one_step leaf = refl

merkle_root_binds_example : (replicate {A = ℕ} 5 1 ≡ replicate 5 1) ⊎ Collision toy_sha256
merkle_root_binds_example =
    merkle_root_binds toy_sha256 1 (replicate 5 1) (replicate 5 1) (replicate 20 9) (replicate 20 9)
      root toy_sha256-IsSha256 refl (one_step (replicate 5 1)) (one_step (replicate 5 1))

verify_shred-IsAuthentic_example : IsAuthentic true toy_sha256 toy_ed25519 shred leader accepted
verify_shred-IsAuthentic_example =
    verify_shred-IsAuthentic true toy_sha256 toy_ed25519 shred leader shred-IsByte accepted
      shred_accepted

accepted_shreds_agree_example :
    (leaf_bytes (parsed shred variant_2 2) ≡ leaf_bytes (parsed shred variant_2 2))
    ⊎ Collision toy_sha256
accepted_shreds_agree_example =
    accepted_shreds_agree true toy_sha256 toy_ed25519 leader shred shred (parsed shred variant_2 2)
      (parsed shred variant_2 2) accepted accepted toy_sha256-IsSha256 shred-IsByte shred-IsByte
      shred_parsed shred_parsed shred_accepted shred_accepted refl refl refl

verify_shred-panic_iff_example :
    (verify_shred true toy_sha256 toy_ed25519 backward leader ≡ panic)
    ↔ ((true ≡ true) × IsBackward backward)
verify_shred-panic_iff_example =
    verify_shred-panic_iff true toy_sha256 toy_ed25519 backward leader backward-IsByte
