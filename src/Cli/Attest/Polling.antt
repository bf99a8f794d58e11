-- ===== src/Cli/Attest/Polling.antt =====
-- The polling loop of `rpc-attest` ends once the slot is there.
use lattica.Prelude.{
  ℕ, suc, length, ◌∙◌, ◌+◌, ◌*◌, ◌^◌, ◌≤◌, ◌<◌, Bool, Option, none, some, List, [], ◌∷◌, ◌++◌, map,
  le→leb, lt→leb_false, All, ◌≡◌, refl, ap, arith,
}
use lattica.Prelude.Bytes.{Bytes}
use lattica.Prelude.Outcome.{Outcome, ok, ◌>>=◌}
use lattica.LtHash.{Blake3}
use lattica.Prelude.Machine.{ExitCode, failure, add_u64_lem, mul_u64_lem}
use lattica.Cli.Attest.{
  AccountSnapshot, Poll, reached, poll_failed, still_polling, poll_until, attest_and_verify,
  cmd_rpc_attest,
}

-- After `n` polls, and as many more as are below the target slot.
poll_until-early :
    (target n : ℕ) (early : List ℕ) (answers : List (Option ℕ))
    → All (λ e. e < target) early
    → poll_until target n (map some early ++ answers) ≡ poll_until target (n + length early) answers
unfolding poll_until
poll_until-early target n [] answers h = ap (λ k. poll_until target k answers) (omega arith)
poll_until-early target n (e ∷ early) answers h = rw (lt→leb_false target e h.0) (
    poll_until-early target (suc n) early answers h.1
    ∙ ap (λ k. poll_until target k answers) (omega arith))

poll_until-reached :
    (target n s : ℕ) (later : List (Option ℕ))
    → target ≤ s
    → poll_until target n (some s ∷ later) ≡ reached (suc n)
unfolding poll_until
poll_until-reached target n s later h = rw (le→leb target s h) refl

-- The command from the end of the loop on.
abbrev after_polls :
    Blake3
    → Bytes
    → AccountSnapshot
    → (ℕ → Option AccountSnapshot)
    → Poll
    → Outcome ⊥ (Option ExitCode)
after_polls b leader_pk snap_old fetched_new still_polling = ok none
after_polls b leader_pk snap_old fetched_new poll_failed = ok (some failure)
after_polls b leader_pk snap_old fetched_new (reached polled) = elim (fetched_new polled) [
  | none ↦ ok (some failure)
  | some snap_new ↦ attest_and_verify b leader_pk snap_old snap_new >>= λ exit. ok (some exit)
]

module _ (c : Bool) (b : Blake3) (leader_pk : Bytes) (wait_slots : ℕ) (snap_old : AccountSnapshot)
    (fetched_new : ℕ → Option AccountSnapshot) (early : List ℕ) (positive : 1 ≤ wait_slots)
    (wait_fits : wait_slots * 400 < 2 ^ 64) (slot_fits : snap_old.slot + wait_slots < 2 ^ 64)
    (below : All (λ e. e < snap_old.slot + wait_slots) early) where
  abbrev target : ℕ
  target = snap_old.slot + wait_slots

  abbrev command : List (Option ℕ) → Outcome ⊥ (Option ExitCode)
  command polls = cmd_rpc_attest c b leader_pk (some wait_slots) (some snap_old) polls fetched_new

  command_lem :
      (answers : List (Option ℕ))
      → command (map some early ++ answers)
        ≡ after_polls b leader_pk snap_old fetched_new (poll_until target (length early) answers)
  unfolding cmd_rpc_attest
  command_lem answers =
      let loop : poll_until target 0 (map some early ++ answers)
          ≡ poll_until target (length early) answers =
        poll_until-early target 0 early answers below
        ∙ ap (λ k. poll_until target k answers) (omega arith) in
      rw
        (
          le→leb 1 wait_slots positive,
          mul_u64_lem {E = ⊥} c wait_slots 400 wait_fits,
          add_u64_lem {E = ⊥} c snap_old.slot wait_slots slot_fits,
        )
        (ap (after_polls b leader_pk snap_old fetched_new) loop)

  -- For a wait of at least one slot, where no number overflows and the first snapshot is fetched, the
  -- command polls on after any number
  -- of slots below the target. The first slot at or above it ends the loop: the second snapshot is the
  -- one that is fetched after exactly these polls, and the exit code is that of its attestation, or a
  -- failure where there is no snapshot. A poll that fails before that ends the command with a failure,
  -- and where there is none yet the command still polls.
  pub cmd_rpc_attest-reached :
      ((s : ℕ) (later : List (Option ℕ)) (snap_new : AccountSnapshot)
        → target ≤ s
        → fetched_new (suc (length early)) ≡ some snap_new
        → command (map some early ++ (some s ∷ later))
          ≡ (attest_and_verify b leader_pk snap_old snap_new >>= λ exit. ok (some exit)))
      × ((s : ℕ) (later : List (Option ℕ))
          → target ≤ s
          → fetched_new (suc (length early)) ≡ none
          → command (map some early ++ (some s ∷ later)) ≡ ok (some failure))
      × ((later : List (Option ℕ)) → command (map some early ++ (none ∷ later)) ≡ ok (some failure))
      × (command (map some early ++ []) ≡ ok none)
  cmd_rpc_attest-reached =
      let after = after_polls b leader_pk snap_old fetched_new in
      (
        λ s later snap_new h e.
            command_lem (some s ∷ later)
            ∙ ap after (poll_until-reached target (length early) s later h)
            ∙ rw (after_polls, e) refl,
        λ s later h e.
            command_lem (some s ∷ later)
            ∙ ap after (poll_until-reached target (length early) s later h)
            ∙ rw (after_polls, e) refl,
        λ later. command_lem (none ∷ later) ∙ unfold poll_until in refl,
        command_lem [] ∙ unfold poll_until in refl,
      )
