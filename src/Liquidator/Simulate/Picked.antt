-- ===== src/Liquidator/Simulate/Picked.antt =====
-- The user that `simulate` picks, beside the candidates of the scanner.
use lattica.Prelude.{
  ℕ, ◌+◌, ◌-◌, ◌^◌, true, ◌||◌, Option, none, some, List, [], ◌∷◌, ◌==◌, ltb, ==_iff, if◌then◌else◌,
  length, ◌≡◌, refl, sym, ap, ◌∙◌, Bool-cases, Option-cases, inl, inr, arith,
}
use mathlib.Core.Option.{map as option_map}
use lattica.Prelude.Bytes.{Bytes}
use lattica.Prelude.Outcome.{Outcome, ok, err, panic, Outcome-cases}
use lattica.Liquidator.Markets.{Markets, FindAddress}
use lattica.Liquidator.Ix.{Position, user_pda, build_liquidate_perp_ix}
use lattica.Liquidator.Scanner.{
  DriftUser, Drift, Health, Account, LiqCandidate, open_count, new_scan, scan_accounts,
}
use lattica.Liquidator.Scanner.Filter.{
  IsActive, candidate_of, IsFiltered, end, keep, skip, scan_accounts-IsScanned,
}
use lattica.Liquidator.Simulate.{
  Candidate, has_open, choose_user, choose_decoded, choose, pick_candidate_with_perp_position,
  first_open_market, infallible, prepare,
}

has_open-count : (ps : List Position) → has_open ps ≡ ltb 0 (open_count ps)
unfolding has_open open_count
has_open-count [] = refl
has_open-count (p ∷ ps) = elim (Bool-cases p.is_available) [
  | inl e ↦ rw e (has_open-count ps)
  | inr e ↦ rw e (ground arith)
]

abbrev pub chosen_if : Account → DriftUser → Option Candidate
chosen_if a u =
    if has_open u.user.perp_positions
    then some (record { pubkey = a.pubkey; drift_user = u })
    else none

module _ (drift : Drift) where
  choose-active :
      (a : Account) (u : DriftUser) → IsActive drift a u → choose drift a ≡ chosen_if a u
  unfolding choose choose_decoded choose_user
  choose-active a u x =
      rw
        (
          choose,
          (==_iff (length a.account_data) (8 + drift.size_of_user)).1 x.sized,
          x.decodes,
          x.not_liquidated,
          x.not_bankrupt,
        )
        refl

  choose-inactive : (a : Account) → ((u : DriftUser) → ¬ IsActive drift a u) → choose drift a ≡ none
  unfolding choose choose_decoded choose_user
  choose-inactive a inactive = elim (Bool-cases (length a.account_data == 8 + drift.size_of_user)) [
    | inr e ↦ rw (choose, e) refl
    | inl e ↦ elim (Outcome-cases (drift.try_deserialize a.account_data)) [
      | inr (inl (x, fails)) ↦ rw (choose, e, fails) refl
      | inr (inr panics) ↦ rw (choose, e, panics) refl
      | inl (u, decodes) ↦ elim (Bool-cases u.is_being_liquidated) [
        | inl k ↦ rw (choose, e, decodes, k) refl
        | inr k ↦ elim (Bool-cases u.is_bankrupt) [
          | inl m ↦ rw (choose, e, decodes, k, m) refl
          | inr m ↦ absurd (
              inactive u (record {
                sized = (==_iff _ _).0 e;
                decodes = decodes;
                not_liquidated = k;
                not_bankrupt = m;
              }))
        ]
      ]
    ]
  ]

module _ (f : Health) (drift : Drift) where
  -- What the scanner records of a user that is picked.
  abbrev pub as_candidate : Candidate → LiqCandidate f.H
  as_candidate c = candidate_of f (record { pubkey = c.pubkey; account_data = [] }) c.drift_user

  abbrev pub first_with_perp : List (LiqCandidate f.H) → Option (LiqCandidate f.H)
  first_with_perp [] = none
  first_with_perp (c ∷ cs) = if ltb 0 c.n_perp_positions then some c else first_with_perp cs

  first_filtered :
      (accounts : List Account) (cs : List (LiqCandidate f.H))
      → IsFiltered f drift accounts cs
      → option_map as_candidate (pick_candidate_with_perp_position drift accounts)
        ≡ first_with_perp cs
  unfolding pick_candidate_with_perp_position
  first_filtered accounts cs end = refl
  first_filtered accounts cs (keep {rest = rest} {cs = found} a u x r) =
      let ps = u.user.perp_positions in
      elim (Bool-cases (has_open ps)) [
        | inl e ↦ rw (choose-active drift a u x, e, sym (has_open-count ps) ∙ e) refl
        | inr e ↦
            rw (choose-active drift a u x, e, sym (has_open-count ps) ∙ e)
              (first_filtered rest found r)
      ]
  first_filtered accounts cs (skip {rest = rest} {cs = found} a x r) =
      rw (choose-inactive drift a x) (first_filtered rest found r)

  -- Over the same accounts, the user that is picked is the first with an open perp position among the
  -- candidates that the scanner's loop collects, before they are sorted and truncated; none is picked
  -- exactly if there is no such candidate.
  pub pick_candidate-first :
      (accounts : List Account)
      → option_map as_candidate (pick_candidate_with_perp_position drift accounts)
        ≡ first_with_perp (scan_accounts f drift accounts new_scan).candidates
  pick_candidate-first accounts =
      let r = scan_accounts-IsScanned f drift accounts new_scan in
      first_filtered accounts r.found r.filtered ∙ ap first_with_perp (sym r.recorded)

choose_user-open :
    (pubkey : Bytes) (u : DriftUser) (c : Candidate)
    → choose_user pubkey u ≡ some c
    → has_open c.drift_user.user.perp_positions ≡ true
unfolding choose_user
choose_user-open pubkey u c h = elim (Bool-cases (u.is_being_liquidated || u.is_bankrupt)) [
  | inl e ↦ cc (rw e at h)
  | inr e ↦ elim (Bool-cases (has_open u.user.perp_positions)) [
    | inr k ↦ cc (rw (e, k) at h)
    | inl k ↦
        let here : some (record { pubkey = pubkey; drift_user = u }) ≡ some c = rw (e, k) at h in
        let same : record { pubkey = pubkey; drift_user = u } ≡ c = cc in
        ap (λ (d : Candidate). has_open d.drift_user.user.perp_positions) (sym same) ∙ k
  ]
]

choose_decoded-open :
    (pubkey : Bytes) (m : Outcome (Unit {0}) DriftUser) (c : Candidate)
    → choose_decoded pubkey m ≡ some c
    → has_open c.drift_user.user.perp_positions ≡ true
unfolding choose_decoded
choose_decoded-open pubkey (ok u) c h = choose_user-open pubkey u c h
choose_decoded-open pubkey (err e) c h = cc
choose_decoded-open pubkey panic c h = cc

choose-open :
    (drift : Drift) (a : Account) (c : Candidate)
    → choose drift a ≡ some c
    → has_open c.drift_user.user.perp_positions ≡ true
unfolding choose
choose-open drift a c h = elim (Bool-cases (length a.account_data == 8 + drift.size_of_user)) [
  | inr e ↦ cc (rw e at h)
  | inl e ↦ choose_decoded-open a.pubkey (drift.try_deserialize a.account_data) c (rw e at h)
]

pick_candidate-open :
    (drift : Drift) (accounts : List Account) (c : Candidate)
    → pick_candidate_with_perp_position drift accounts ≡ some c
    → has_open c.drift_user.user.perp_positions ≡ true
unfolding pick_candidate_with_perp_position
pick_candidate-open drift [] c h = cc
pick_candidate-open drift (a ∷ rest) c h = elim (Option-cases (choose drift a)) [
  | inl e ↦ pick_candidate-open drift rest c (rw e at h)
  | inr (d, e) ↦
      let here : some d ≡ some c = rw e at h in
      let same : d ≡ c = cc in choose-open drift a c (e ∙ ap some same)
]

first_open_market-found :
    (ps : List Position) → has_open ps ≡ true → (i : ℕ) × (first_open_market ps ≡ some i)
unfolding has_open first_open_market
first_open_market-found [] h = cc
first_open_market-found (p ∷ ps) h = elim (Bool-cases p.is_available) [
  | inr e ↦ (p.market_index, rw e refl)
  | inl e ↦ let (i, k) = first_open_market-found ps (rw e at h) in (i, rw e k)
]

-- Once the markets are loaded and a user is picked, the run does not stop for want of a perp position:
-- the instruction is built for the first open market of the user, which stands on both sides, with the
-- amount `u64::MAX` and without a limit price.
pub prepare-picked :
    (find : FindAddress) (program : Bytes) (drift : Drift) (markets : Markets)
    (accounts : List Account) (c : Candidate)
    → pick_candidate_with_perp_position drift accounts ≡ some c
    → (i : ℕ) × (first_open_market c.drift_user.user.perp_positions ≡ some i)
      × (prepare find program drift (ok markets) (some accounts)
          ≡ infallible (
              build_liquidate_perp_ix find program c.drift_user.user.authority
                (user_pda find c.drift_user.user.authority c.drift_user.sub_account_id)
                c.drift_user.user
                c.pubkey
                c.drift_user.user
                i
                (2 ^ 64 - 1)
                none
                markets))
unfolding prepare
prepare-picked find program drift markets accounts c h =
    let (i, first) =
      first_open_market-found c.drift_user.user.perp_positions
        (pick_candidate-open drift accounts c h) in
    (i, first, rw (prepare, h, first) refl)
