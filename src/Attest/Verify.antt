-- ===== src/Attest/Verify.antt =====
-- When the slot verifier accepts, which error it returns, and what its acceptance gives.
use mathlib.Core.List.{Perm}
use mathlib.Core.List.Perm
use lattica.Prelude.{
  ℕ, Bool, true, false, ◌||◌, Option, none, some, List, [], ◌∷◌, ◌++◌, map, ◌==◌, ==_iff,
  if◌then◌else◌, length, ◌≡◌, ◌≢◌, refl, sym, ap, ◌∙◌, ◌↔◌, inl, inr, Bool-cases, arith, All,
}
use lattica.Prelude.Outcome.{ok, err}
use lattica.LtHash.{
  LtHash, AccountForHash, Blake3, IsBlake3, SlotDelta, n_limbs, mix_in, hash_account, checksum, mix,
  new_delta,
}
use lattica.LtHash.Group.{identity-IsLtHash}
use lattica.LtHash.Delta.{
  Change, mix_all, mix_all-perm, mix_all-IsLtHash, olds, news, accounts_hash,
  delta_reconstructs_after, mix_same, side,
}
use lattica.Attest.{
  Attestation, from_delta, delta_as_lthash, AccountTransition, empty_transition, malformed_delta,
  delta_mismatch, apply_transition, recompute, limbs_eq, compare_deltas, verify_slot_delta,
}

abbrev pub change : AccountTransition → Change
change t = (t.old, t.new)

-- The delta that `SlotDelta` builds from the transitions.
abbrev pub built_delta : Blake3 → List AccountTransition → LtHash
built_delta b ts = (mix_all b new_delta (map change ts)).delta

-- Neither side is there.
abbrev pub IsEmpty : AccountTransition → Type 0
IsEmpty t = (t.old ≡ none) × (t.new ≡ none)

abbrev pub is_empty : Option AccountForHash → Option AccountForHash → Bool
is_empty none none = true
is_empty none (some n) = false
is_empty (some o) new = false

abbrev pub any_empty : List AccountTransition → Bool
any_empty [] = false
any_empty (t ∷ ts) = is_empty t.old t.new || any_empty ts

limbs_eq_iff : (xs ys : List ℕ) → (limbs_eq xs ys ≡ true) ↔ (xs ≡ ys)
unfolding limbs_eq
limbs_eq_iff [] [] = (λ e. refl, λ e. refl)
limbs_eq_iff [] (y ∷ ys) = (λ e. cc, λ e. cc)
limbs_eq_iff (x ∷ xs) [] = (λ e. cc, λ e. cc)
limbs_eq_iff (x ∷ xs) (y ∷ ys) = ground (arith, limbs_eq_iff xs ys)

apply_transition-mix :
    (b : Blake3) (d : SlotDelta) (old new : Option AccountForHash)
    → apply_transition b d.delta old new
      ≡ (if is_empty old new then err empty_transition else ok (mix b d old new).delta)
unfolding apply_transition mix
apply_transition-mix b d none none = refl
apply_transition-mix b d none (some n) = refl
apply_transition-mix b d (some o) none = refl
apply_transition-mix b d (some o) (some n) = refl

-- The verifier's loop is the builder, but for the transitions that it rejects.
recompute-mix_all :
    (b : Blake3) (d : SlotDelta) (ts : List AccountTransition)
    → recompute b d.delta ts
      ≡ (if any_empty ts then err empty_transition else ok (mix_all b d (map change ts)).delta)
unfolding recompute mix_all
recompute-mix_all b d [] = refl
recompute-mix_all b d (t ∷ ts) = elim (Bool-cases (is_empty t.old t.new)) [
  | inl e ↦ rw (apply_transition-mix b d t.old t.new, e) refl
  | inr e ↦
      rw (apply_transition-mix b d t.old t.new, e) (recompute-mix_all b (mix b d t.old t.new) ts)
]

-- The whole verifier by its three tests, in their order.
pub verify_slot_delta_cases :
    (b : Blake3) (att : Attestation) (ts : List AccountTransition)
    → verify_slot_delta b att ts ≡ (
        if length att.delta_lthash == n_limbs
        then (if any_empty ts
            then err empty_transition
            else compare_deltas b (record { limbs = att.delta_lthash }) (built_delta b ts))
        else err malformed_delta)
unfolding verify_slot_delta delta_as_lthash new_delta
verify_slot_delta_cases b att ts = elim (Bool-cases (length att.delta_lthash == n_limbs)) [
  | inl e ↦ elim (Bool-cases (any_empty ts)) [
    | inl f ↦ rw (e, recompute-mix_all b new_delta ts, f) refl
    | inr f ↦ rw (e, recompute-mix_all b new_delta ts, f) refl
  ]
  | inr e ↦ rw e refl
]

-- The transition has a side.
abbrev pub IsProper : AccountTransition → Type 0
IsProper t = ¬ IsEmpty t

is_empty_iff : (t : AccountTransition) → (is_empty t.old t.new ≡ false) ↔ IsProper t
is_empty_iff t = go t.old t.new
  where
    go :
        (old new : Option AccountForHash)
        → (is_empty old new ≡ false) ↔ (¬ ((old ≡ none) × (new ≡ none)))
    go none none = (λ e. cc, λ h. absurd (h (refl, refl)))
    go none (some n) = (λ e h. let (p, q) = h in cc, λ h. refl)
    go (some o) new = (λ e h. let (p, q) = h in cc, λ h. refl)

any_empty_iff : (ts : List AccountTransition) → (any_empty ts ≡ false) ↔ All IsProper ts
any_empty_iff [] = (λ e. tt, λ h. refl)
any_empty_iff (t ∷ ts) =
    let (to, from) = is_empty_iff t in
    let (to_rest, from_rest) = any_empty_iff ts in
    (
      λ e. elim (Bool-cases (is_empty t.old t.new)) [
        | inl p ↦ cc (rw p at e)
        | inr p ↦ (to p, to_rest (rw p at e))
      ],
      λ h. rw (from h.0, from_rest h.1) refl,
    )

module _ (b : Blake3) (att : Attestation) (ts : List AccountTransition) where
  abbrev attested : LtHash
  attested = record { limbs = att.delta_lthash }

  -- The verifier accepts exactly a well-formed attestation whose limbs are those of the delta that
  -- `SlotDelta` builds from the claimed transitions, none of which is empty.
  pub verify_slot_delta-ok_iff : (verify_slot_delta b att ts ≡ ok tt) ↔ (
      (length att.delta_lthash ≡ n_limbs)
      × All IsProper ts
      × ((built_delta b ts).limbs ≡ att.delta_lthash))
  verify_slot_delta-ok_iff =
      let proper = any_empty_iff ts in
      let same = limbs_eq_iff (built_delta b ts).limbs att.delta_lthash in
      let cases = verify_slot_delta_cases b att ts in
      (
        λ h.
            let h' = sym cases ∙ h in
            elim (Bool-cases (length att.delta_lthash == n_limbs)) [
              | inr e ↦ cc (rw e at h')
              | inl e ↦ elim (Bool-cases (any_empty ts)) [
                | inl f ↦ cc (rw (e, f) at h')
                | inr f ↦ elim (Bool-cases (limbs_eq (built_delta b ts).limbs att.delta_lthash)) [
                  | inl g ↦ ((==_iff _ _).0 e, proper.0 f, same.0 g)
                  | inr g ↦ cc (rw (e, f, g) at h')
                ]
              ]
            ],
        λ h. cases ∙ rw ((==_iff _ _).1 h.0, proper.1 h.1, same.1 h.2) refl,
      )

  -- A limb count other than 1024 is reported first, whatever the transitions; then an empty
  -- transition, whatever the delta; and a well-formed attestation of another delta is reported with
  -- the checksums of both deltas.
  pub verify_slot_delta_errors :
      (length att.delta_lthash ≢ n_limbs → verify_slot_delta b att ts ≡ err malformed_delta)
      × (length att.delta_lthash ≡ n_limbs
          → ¬ All IsProper ts
          → verify_slot_delta b att ts ≡ err empty_transition)
      × (length att.delta_lthash ≡ n_limbs
          → All IsProper ts
          → (built_delta b ts).limbs ≢ att.delta_lthash
          → verify_slot_delta b att ts
            ≡ err (delta_mismatch (checksum b attested) (checksum b (built_delta b ts))))
  verify_slot_delta_errors =
      let proper = any_empty_iff ts in
      let same = limbs_eq_iff (built_delta b ts).limbs att.delta_lthash in
      let cases = verify_slot_delta_cases b att ts in
      (
        λ h. elim (Bool-cases (length att.delta_lthash == n_limbs)) [
          | inl e ↦ absurd (h ((==_iff _ _).0 e))
          | inr e ↦ cases ∙ rw e refl
        ],
        λ h k. elim (Bool-cases (any_empty ts)) [
          | inl f ↦ cases ∙ rw ((==_iff _ _).1 h, f) refl
          | inr f ↦ absurd (k (proper.0 f))
        ],
        λ h k d. elim (Bool-cases (limbs_eq (built_delta b ts).limbs att.delta_lthash)) [
          | inl g ↦ absurd (d (same.0 g))
          | inr g ↦ cases ∙ rw ((==_iff _ _).1 h, proper.1 k, g) refl
        ],
      )

-- The accounts on the two sides of the transitions.
abbrev pub before : List AccountTransition → List AccountForHash
before ts = olds (map change ts)

abbrev pub after : List AccountTransition → List AccountForHash
after ts = news (map change ts)

module _ (b : Blake3) (laws : IsBlake3 b) where
  -- Accepted transitions take the accounts hash before the slot to the one after it by the attested
  -- delta, whatever other accounts there are.
  pub verified_delta_reconstructs :
      (att : Attestation) (ts : List AccountTransition) (l : List AccountForHash)
      → verify_slot_delta b att ts ≡ ok tt
      → mix_in (accounts_hash b (before ts ++ l)) (record { limbs = att.delta_lthash })
        ≡ accounts_hash b (after ts ++ l)
  verified_delta_reconstructs att ts l h =
      let accepted = (verify_slot_delta-ok_iff b att ts).0 h in
      ap (λ t. mix_in (accounts_hash b (before ts ++ l)) (record { limbs = t })) (sym accepted.2)
      ∙ delta_reconstructs_after b laws (map change ts) l

  -- An attestation of the delta built from some transitions is accepted for the same transitions in
  -- any order, if none is empty.
  pub honest_attestation_verifies :
      (att : Attestation) (slot fec_set_index : ℕ) (pk root sig : List ℕ)
      (ts us : List AccountTransition)
      → from_delta slot fec_set_index pk root sig (built_delta b ts) ≡ ok att
      → Perm ts us
      → All IsProper us
      → verify_slot_delta b att us ≡ ok tt
  unfolding from_delta
  honest_attestation_verifies att slot fec_set_index pk root sig ts us made p proper =
      let valid =
        mix_all-IsLtHash b laws new_delta (map change ts) (unfold new_delta in identity-IsLtHash) in
      let made' = rw ((==_iff _ n_limbs).1 valid.count) at made in
      let limbs_same : att.delta_lthash ≡ (built_delta b ts).limbs = ground arith in
      let order = mix_all-perm b laws (map change ts) (map change us) (Perm.map change p) in
      (verify_slot_delta-ok_iff b att us).1 (
        rw limbs_same valid.count,
        proper,
        ap (λ (d : SlotDelta). d.delta.limbs) (sym order) ∙ sym limbs_same,
      )

  -- A proper transition whose two sides have the same hash can be added to the claim, or left out of
  -- it: the verdict is the same.
  pub unchanged_account_is_invisible :
      (att : Attestation) (o n : AccountForHash) (ts : List AccountTransition)
      → hash_account b o ≡ hash_account b n
      → verify_slot_delta b att (record { old = some o; new = some n } ∷ ts)
        ≡ verify_slot_delta b att ts
  unchanged_account_is_invisible att o n ts e =
      let kept : mix b new_delta (some o) (some n) ≡ new_delta =
        mix_same b laws new_delta (some o) (some n) (unfold new_delta in identity-IsLtHash)
          (unfold side in e) in
      let same : built_delta b (record { old = some o; new = some n } ∷ ts) ≡ built_delta b ts =
        unfold mix_all in ap (λ d. (mix_all b d (map change ts)).delta) kept in
      verify_slot_delta_cases b att (record { old = some o; new = some n } ∷ ts)
      ∙ rw same (sym (verify_slot_delta_cases b att ts))
