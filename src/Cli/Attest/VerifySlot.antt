-- ===== src/Cli/Attest/VerifySlot.antt =====
-- The exit codes of `verify-slot`.
use lattica.Prelude.{
  none, some, List, replicate, All, ◌≡◌, ◌≢◌, refl, sym, ap, ◌∙◌, Bool-cases, inl, inr,
}
use lattica.Prelude.Bytes.{Bytes}
use lattica.Prelude.Outcome.{ok}
use lattica.LtHash.{
  LtHash, IsLtHash, Blake3, IsBlake3, AccountForHash, SlotDelta, hash_account, mix, new_delta,
}
use lattica.LtHash.Group.{identity-IsLtHash}
use lattica.LtHash.Delta.{mix-IsLtHash, mix-new_injective, mix-delta_injective, mix_all, side}
use lattica.Attest.{Attestation, AccountTransition, verify_slot_delta}
use lattica.Attest.Verify.{built_delta, IsProper}
use lattica.Prelude.Machine.{success, failure, code_of, ascii, str_eq, str_eq-true}
use lattica.Cli.Attest.{
  a_old, a_new, b_old, b_new, created, b_new_tampered, transitions_with, true_delta, transitions_of,
  exit_of, cmd_verify_slot,
}
use lattica.Cli.Attest.RpcAttest.{attestation_of, from_delta_lem, verdict_same, verdict_other}

module _ (b : Blake3) (laws : IsBlake3 b) (leader_pk : Bytes) where
  -- The delta with bob's new state, up to bob and whole.
  abbrev with_alice : SlotDelta
  with_alice = mix b new_delta (some a_old) (some a_new)

  abbrev with_bob : AccountForHash → SlotDelta
  with_bob bob = mix b with_alice (some b_old) (some bob)

  alice_valid : IsLtHash with_alice.delta
  alice_valid =
      mix-IsLtHash b laws new_delta (some a_old) (some a_new)
        (unfold new_delta in identity-IsLtHash)

  up_to_valid : (bob : AccountForHash) → IsLtHash (with_bob bob).delta
  up_to_valid bob = mix-IsLtHash b laws with_alice (some b_old) (some bob) alice_valid

  delta_with :
      (bob : AccountForHash)
      → built_delta b (transitions_with bob) ≡ (mix b (with_bob bob) none (some created)).delta
  delta_with bob = unfold mix_all in refl

  transitions_with-IsProper : (bob : AccountForHash) → All IsProper (transitions_with bob)
  transitions_with-IsProper bob = ((λ (p, q). cc), ((λ (p, q). cc), ((λ (p, q). cc), tt)))

  true_valid : IsLtHash (true_delta b).delta
  true_valid =
      unfold true_delta in
      mix-IsLtHash b laws (with_bob b_new) none (some created) (up_to_valid b_new)

  tampered_differs :
      hash_account b b_new ≢ hash_account b b_new_tampered
      → built_delta b (transitions_with b_new_tampered) ≢ (true_delta b).delta
  tampered_differs d e =
      let same : (mix b (with_bob b_new) none (some created)).delta
          ≡ (mix b (with_bob b_new_tampered) none (some created)).delta =
        unfold true_delta in (sym e ∙ delta_with b_new_tampered) in
      let inner =
        mix-delta_injective b laws (with_bob b_new) (with_bob b_new_tampered) none (some created)
          (up_to_valid b_new) (up_to_valid b_new_tampered) same in
      d (
        unfold side in
        mix-new_injective b laws with_alice (some b_old) (some b_new) (some b_new_tampered)
          alice_valid inner)

  abbrev attestation : Attestation
  attestation =
      attestation_of 0x12345678 leader_pk (replicate 32 0xab) (replicate 64 0xcd)
        (true_delta b).delta

  cmd_verify_slot-some :
      (mode : Bytes) (ts : List AccountTransition)
      → transitions_of mode ≡ some ts
      → cmd_verify_slot b leader_pk mode ≡ exit_of (verify_slot_delta b attestation ts)
  unfolding cmd_verify_slot
  cmd_verify_slot-some mode ts e =
      rw
        (
          from_delta_lem 0x12345678 leader_pk (replicate 32 0xab) (replicate 64 0xcd)
              (true_delta b).delta true_valid,
          e,
        )
        refl

  cmd_verify_slot-none :
      (mode : Bytes) → transitions_of mode ≡ none → cmd_verify_slot b leader_pk mode ≡ ok failure
  unfolding cmd_verify_slot
  cmd_verify_slot-none mode e =
      rw
        (
          from_delta_lem 0x12345678 leader_pk (replicate 32 0xab) (replicate 64 0xcd)
              (true_delta b).delta true_valid,
          e,
        )
        refl

  other_mode :
      (mode : Bytes) → mode ≢ ascii "ok" → mode ≢ ascii "tamper" → transitions_of mode ≡ none
  unfolding transitions_of
  other_mode mode h k = elim (Bool-cases (str_eq mode (ascii "ok"))) [
    | inl e ↦ absurd (h (str_eq-true mode (ascii "ok") e))
    | inr e ↦ elim (Bool-cases (str_eq mode (ascii "tamper"))) [
      | inl f ↦ absurd (k (str_eq-true mode (ascii "tamper") f))
      | inr f ↦ rw (e, f) refl
    ]
  ]

  -- In the mode `ok` the command exits with success. In the mode `tamper` it exits with code 2 if the
  -- hash tells bob's two new states apart, and in any other mode with failure.
  pub cmd_verify_slot_exit :
      (cmd_verify_slot b leader_pk (ascii "ok") ≡ ok success)
      × (hash_account b b_new ≢ hash_account b b_new_tampered
          → cmd_verify_slot b leader_pk (ascii "tamper") ≡ ok (code_of 2))
      × ((mode : Bytes)
          → mode ≢ ascii "ok"
          → mode ≢ ascii "tamper"
          → cmd_verify_slot b leader_pk mode ≡ ok failure)
  cmd_verify_slot_exit =
      let root : Bytes = replicate 32 0xab in
      let sig : Bytes = replicate 64 0xcd in
      let delta : LtHash = (true_delta b).delta in
      (
        cmd_verify_slot-some (ascii "ok") (transitions_with b_new)
              (unfold transitions_of str_eq in refl)
            ∙ (unfold exit_of in
                ap exit_of (
                  verdict_same b 0x12345678 leader_pk root sig delta (transitions_with b_new)
                    true_valid (transitions_with-IsProper b_new)
                    (unfold true_delta in delta_with b_new))),
        λ d.
            cmd_verify_slot-some (ascii "tamper") (transitions_with b_new_tampered)
              (unfold transitions_of str_eq in refl)
            ∙ (unfold exit_of in
                ap exit_of (
                  verdict_other b 0x12345678 leader_pk root sig delta
                    (transitions_with b_new_tampered) true_valid
                    (transitions_with-IsProper b_new_tampered) (tampered_differs d))),
        λ mode h k. cmd_verify_slot-none mode (other_mode mode h k),
      )
