-- ===== src/Tests/Attest.antt =====
-- The theorems on attestations, applied.
use mathlib.Core.List.{Perm}
use mathlib.Core.List.Perm
use lattica.Prelude.{
  none, some, List, [], ◌∷◌, ◌++◌, map, length, replicate, All, ==_iff, ◌≡◌, ◌≢◌, ◌↔◌, refl,
}
use lattica.Prelude.Outcome.{ok, err}
use lattica.LtHash.{n_limbs, mix_in, hash_account, checksum, new_delta}
use lattica.LtHash.Group.{identity-IsLtHash}
use lattica.LtHash.Delta.{accounts_hash, mix_all-IsLtHash}
use lattica.Attest.{
  Attestation, from_delta, AccountTransition, empty_transition, malformed_delta, delta_mismatch,
  verify_slot_delta,
}
use lattica.Attest.Verify.{
  change, built_delta, IsProper, before, after, verify_slot_delta-ok_iff, verify_slot_delta_errors,
  verified_delta_reconstructs, honest_attestation_verifies, unchanged_account_is_invisible,
}
use lattica.Tests.Fixtures.{toy_blake3, toy_blake3-IsBlake3, account}

abbrev update : AccountTransition
update = record { old = some (account 500 7); new = some (account 400 7) }

abbrev create : AccountTransition
create = record { old = none; new = some (account 100 8) }

abbrev nothing : AccountTransition
nothing = record { old = none; new = none }

abbrev attestation : List AccountTransition → Attestation
attestation ts = record {
  slot = 5;
  fec_set_index = 0;
  leader_pubkey = replicate 32 1;
  fec_merkle_root = replicate 32 2;
  leader_sig = replicate 64 3;
  delta_lthash = (built_delta toy_blake3 ts).limbs;
}

made_example :
    (ts : List AccountTransition)
    → from_delta 5 0 (replicate 32 1) (replicate 32 2) (replicate 64 3) (built_delta toy_blake3 ts)
      ≡ ok (attestation ts)
unfolding from_delta
made_example ts =
    let valid =
      mix_all-IsLtHash toy_blake3 toy_blake3-IsBlake3 new_delta (map change ts)
        (unfold new_delta in identity-IsLtHash) in
    rw ((==_iff _ n_limbs).1 valid.count) refl

verify_slot_delta-ok_iff_example :
    (verify_slot_delta toy_blake3 (attestation (update ∷ [])) (update ∷ create ∷ []) ≡ ok tt) ↔ (
      (length (attestation (update ∷ [])).delta_lthash ≡ n_limbs)
      × All IsProper (update ∷ create ∷ [])
      × ((built_delta toy_blake3 (update ∷ create ∷ [])).limbs
          ≡ (attestation (update ∷ [])).delta_lthash))
verify_slot_delta-ok_iff_example =
    verify_slot_delta-ok_iff toy_blake3 (attestation (update ∷ [])) (update ∷ create ∷ [])

verify_slot_delta_errors_example :
    (length (attestation []).delta_lthash ≢ n_limbs
      → verify_slot_delta toy_blake3 (attestation []) (update ∷ nothing ∷ []) ≡ err malformed_delta)
    × (length (attestation []).delta_lthash ≡ n_limbs
        → ¬ All IsProper (update ∷ nothing ∷ [])
        → verify_slot_delta toy_blake3 (attestation []) (update ∷ nothing ∷ [])
          ≡ err empty_transition)
    × (length (attestation []).delta_lthash ≡ n_limbs
        → All IsProper (update ∷ nothing ∷ [])
        → (built_delta toy_blake3 (update ∷ nothing ∷ [])).limbs ≢ (attestation []).delta_lthash
        → verify_slot_delta toy_blake3 (attestation []) (update ∷ nothing ∷ [])
          ≡ err (
              delta_mismatch
                (checksum toy_blake3 (record { limbs = (attestation []).delta_lthash }))
                (checksum toy_blake3 (built_delta toy_blake3 (update ∷ nothing ∷ [])))))
verify_slot_delta_errors_example =
    verify_slot_delta_errors toy_blake3 (attestation []) (update ∷ nothing ∷ [])

swapped_transitions : Perm (update ∷ create ∷ []) (create ∷ update ∷ [])
swapped_transitions = Perm.swap _ _ _

both-IsProper : All IsProper (create ∷ update ∷ [])
both-IsProper = (λ h. let (p, q) = h in cc, (λ h. let (p, q) = h in cc, tt))

accepted_once :
    verify_slot_delta toy_blake3 (attestation (create ∷ update ∷ [])) (create ∷ update ∷ []) ≡ ok tt
accepted_once =
    honest_attestation_verifies toy_blake3 toy_blake3-IsBlake3 (attestation (create ∷ update ∷ []))
      5 0 (replicate 32 1) (replicate 32 2) (replicate 64 3) (create ∷ update ∷ [])
      (create ∷ update ∷ []) (made_example (create ∷ update ∷ [])) Perm.rfl both-IsProper

verified_delta_reconstructs_example :
    mix_in
      (accounts_hash toy_blake3 (before (create ∷ update ∷ []) ++ (account 1 9 ∷ [])))
      (record { limbs = (attestation (create ∷ update ∷ [])).delta_lthash })
    ≡ accounts_hash toy_blake3 (after (create ∷ update ∷ []) ++ (account 1 9 ∷ []))
verified_delta_reconstructs_example =
    verified_delta_reconstructs toy_blake3 toy_blake3-IsBlake3 (attestation (create ∷ update ∷ []))
      (create ∷ update ∷ []) (account 1 9 ∷ []) accepted_once

-- Two tombstones with different keys.
tombstones : hash_account toy_blake3 (account 0 7) ≡ hash_account toy_blake3 (account 0 8)
unfolding hash_account
tombstones = refl

unchanged_account_is_invisible_example :
    verify_slot_delta toy_blake3
      (attestation (update ∷ []))
      (record { old = some (account 0 7); new = some (account 0 8) } ∷ update ∷ [])
    ≡ verify_slot_delta toy_blake3 (attestation (update ∷ [])) (update ∷ [])
unchanged_account_is_invisible_example =
    unchanged_account_is_invisible toy_blake3 toy_blake3-IsBlake3 (attestation (update ∷ []))
      (account 0 7) (account 0 8) (update ∷ []) tombstones
