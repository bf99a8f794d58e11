-- ===== src/Liquidator/Scanner/Filter.antt =====
-- Which users a scan returns, and in which order.
use lattica.Prelude.{
  ℕ, suc, ◌+◌, false, some, List, [], ◌∷◌, ◌++◌, ◌==◌, ==_iff, length, take, All, ◌≡◌, ◌⊎◌, refl,
  sym, ap, ◌∙◌, Bool-cases, inl, inr, arith,
}
use mathlib.Core.List.{append-nil, append_assoc}
use lattica.Prelude.Outcome.{ok, Outcome-cases}
use lattica.Liquidator.Ix.{equal}
use lattica.Liquidator.Scanner.{
  DriftUser, Drift, Health, Account, LiqCandidate, open_count, Scan, push, scan_user, scan_decoded,
  scan_account, scan_accounts, new_scan, by_health, insert_by, sort_by, scan_users,
}

-- The account decodes to a user that is open to liquidation.
pub record IsActive (drift : Drift) (a : Account) (u : DriftUser) : Type 0 where
  pub sized : length a.account_data ≡ 8 + drift.size_of_user
  pub decodes : drift.try_deserialize a.account_data ≡ ok u
  pub not_liquidated : u.is_being_liquidated ≡ false
  pub not_bankrupt : u.is_bankrupt ≡ false

-- What is recorded of a user: its keys and how many positions it has open. The collateral is 0 and the
-- margin 1.
abbrev pub candidate_of : (f : Health) → Account → DriftUser → LiqCandidate f.H
candidate_of f a u = record {
  pubkey = a.pubkey;
  authority = u.user.authority;
  total_collateral_q6 = 0;
  margin_requirement_q6 = 1;
  health = f.quotient 0 1;
  n_perp_positions = open_count u.user.perp_positions;
  n_spot_positions = open_count u.user.spot_positions;
}

-- The candidates are those of the active users among the accounts, in the order of the accounts.
pub data IsFiltered (f : Health) (drift : Drift)
    : List Account → List (LiqCandidate f.H) → Type 0 where
  end : IsFiltered f drift [] []
  keep :
      {rest : List Account} {cs : List (LiqCandidate f.H)} (a : Account) (u : DriftUser)
      → IsActive drift a u
      → IsFiltered f drift rest cs
      → IsFiltered f drift (a ∷ rest) (candidate_of f a u ∷ cs)
  skip :
      {rest : List Account} {cs : List (LiqCandidate f.H)} (a : Account)
      → ((u : DriftUser) → ¬ IsActive drift a u)
      → IsFiltered f drift rest cs
      → IsFiltered f drift (a ∷ rest) cs

-- Every account that was looked at is in exactly one of the counts.
abbrev pub counted : {H : Type 0} → Scan H → ℕ
counted s =
    length s.candidates
    + s.decode_failures
    + s.margin_failures
    + s.zero_margin
    + s.already_liquidating
    + s.size_mismatch

push-append {ℓ} : {A : Type ℓ} (xs : List A) (x : A) → push xs x ≡ xs ++ (x ∷ [])
push-append [] x = refl
push-append (y ∷ ys) x = ap (λ t. y ∷ t) (push-append ys x)

length-push {ℓ} : {A : Type ℓ} (xs : List A) (x : A) → length (push xs x) ≡ suc (length xs)
length-push [] x = refl
length-push (y ∷ ys) x = ap suc (length-push ys x)

module _ (f : Health) (drift : Drift) where
  -- What the body of the loop does with an account: it is active and recorded, or it is not and only
  -- counted.
  record IsKept (a : Account) (s t : Scan f.H) (u : DriftUser) : Type 0 where
    active : IsActive drift a u
    recorded : t.candidates ≡ s.candidates ++ (candidate_of f a u ∷ [])
    pub counts : counted t ≡ counted s + 1

  record IsSkipped (a : Account) (s t : Scan f.H) : Type 0 where
    inactive : (u : DriftUser) → ¬ IsActive drift a u
    unchanged : t.candidates ≡ s.candidates
    pub counts : counted t ≡ counted s + 1

  abbrev Handled : Account → Scan f.H → Scan f.H → Type 0
  Handled a s t = ((u : DriftUser) × IsKept a s t u) ⊎ IsSkipped a s t

  scan_user-Handled :
      (a : Account) (u : DriftUser) (s : Scan f.H)
      → length a.account_data ≡ 8 + drift.size_of_user
      → drift.try_deserialize a.account_data ≡ ok u
      → Handled a s (scan_user f a.pubkey u s)
  unfolding scan_user
  scan_user-Handled a u s sized decodes = elim (Bool-cases u.is_being_liquidated) [
    | inl e ↦ rw e (
        inr (record {
          inactive = λ v x.
              let same : u ≡ v = cc (x.decodes, decodes) in
              cc (ap (λ (w : DriftUser). w.is_being_liquidated) same, x.not_liquidated, e);
          unchanged = refl;
          counts = omega arith;
        }))
    | inr e ↦ elim (Bool-cases u.is_bankrupt) [
      | inl k ↦
          rw (e, k)
            (inr (record {
              inactive = λ v x.
                  let same : u ≡ v = cc (x.decodes, decodes) in
                  cc (ap (λ (w : DriftUser). w.is_bankrupt) same, x.not_bankrupt, k);
              unchanged = refl;
              counts = omega arith;
            }))
      | inr k ↦
          rw (e, k)
            (inl (
              u,
              record {
                active = record {
                  sized = sized;
                  decodes = decodes;
                  not_liquidated = e;
                  not_bankrupt = k;
                };
                recorded = push-append s.candidates (candidate_of f a u);
                counts = omega (arith, length-push s.candidates (candidate_of f a u));
              },
            ))
    ]
  ]

  scan_decoded-Handled :
      (a : Account) (s : Scan f.H)
      → length a.account_data ≡ 8 + drift.size_of_user
      → Handled a s (scan_decoded f a.pubkey (drift.try_deserialize a.account_data) s)
  unfolding scan_decoded
  scan_decoded-Handled a s sized = elim (Outcome-cases (drift.try_deserialize a.account_data)) [
    | inl (u, decodes) ↦ rw decodes (scan_user-Handled a u s sized decodes)
    | inr (inl (e, fails)) ↦ rw fails (
        inr (record {
          inactive = λ u x. cc (x.decodes, fails);
          unchanged = refl;
          counts = omega arith;
        }))
    | inr (inr panics) ↦ rw panics (
        inr (record {
          inactive = λ u x. cc (x.decodes, panics);
          unchanged = refl;
          counts = omega arith;
        }))
  ]

  scan_account-Handled : (a : Account) (s : Scan f.H) → Handled a s (scan_account f drift a s)
  unfolding scan_account
  scan_account-Handled a s = elim (Bool-cases (length a.account_data == 8 + drift.size_of_user)) [
    | inl e ↦ rw e (scan_decoded-Handled a s ((==_iff _ _).0 e))
    | inr e ↦ rw e (
        inr (record {
          inactive =
              λ u x. cc (e, (==_iff (length a.account_data) (8 + drift.size_of_user)).1 x.sized);
          unchanged = refl;
          counts = omega arith;
        }))
  ]

  -- What a scan of accounts adds to the candidates.
  pub record IsScanned (accounts : List Account) (s t : Scan f.H) : Type 0 where
    pub found : List (LiqCandidate f.H)
    pub filtered : IsFiltered f drift accounts found
    pub recorded : t.candidates ≡ s.candidates ++ found
    pub counts : counted t ≡ counted s + length accounts

  pub scan_accounts-IsScanned :
      (accounts : List Account) (s : Scan f.H)
      → IsScanned accounts s (scan_accounts f drift accounts s)
  unfolding scan_accounts
  scan_accounts-IsScanned [] s = record {
    found = [];
    filtered = end;
    recorded = sym (append-nil s.candidates);
    counts = omega arith;
  }
  scan_accounts-IsScanned (a ∷ rest) s =
      let after = scan_account f drift a s in
      let r = scan_accounts-IsScanned rest after in
      elim (scan_account-Handled a s) [
        | inl (u, k) ↦ record {
          found = candidate_of f a u ∷ r.found;
          filtered = keep a u k.active r.filtered;
          recorded =
              r.recorded
              ∙ ap (λ t. t ++ r.found) k.recorded
              ∙ append_assoc s.candidates (candidate_of f a u ∷ []) r.found;
          counts = omega (arith, r.counts, k.counts);
        }
        | inr k ↦ record {
          found = r.found;
          filtered = skip a k.inactive r.filtered;
          recorded = r.recorded ∙ ap (λ t. t ++ r.found) k.unchanged;
          counts = omega (arith, r.counts, k.counts);
        }
      ]

  IsFiltered-health :
      {accounts : List Account} {cs : List (LiqCandidate f.H)}
      → IsFiltered f drift accounts cs
      → All (λ c. c.health ≡ f.quotient 0 1) cs
  IsFiltered-health end = tt
  IsFiltered-health (keep a u x r) = (refl, IsFiltered-health r)
  IsFiltered-health (skip a x r) = IsFiltered-health r

  insert_by-front :
      (c : LiqCandidate f.H) (cs : List (LiqCandidate f.H))
      → All (λ d. by_health f c d ≡ equal) cs
      → insert_by (by_health f) c cs ≡ c ∷ cs
  unfolding insert_by
  insert_by-front c [] h = refl
  insert_by-front c (d ∷ ds) h = rw (insert_by, h.0) refl

  module _ (reflexive : f.partial_cmp (f.quotient 0 1) (f.quotient 0 1) ≡ some equal) where
    tied :
        (c : LiqCandidate f.H) (cs : List (LiqCandidate f.H))
        → c.health ≡ f.quotient 0 1
        → All (λ d. d.health ≡ f.quotient 0 1) cs
        → All (λ d. by_health f c d ≡ equal) cs
    unfolding by_health
    tied c [] h k = tt
    tied c (d ∷ ds) h k = (rw (by_health, h, k.0, reflexive) refl, tied c ds h k.1)

    sort_by-tied :
        (cs : List (LiqCandidate f.H))
        → All (λ d. d.health ≡ f.quotient 0 1) cs
        → sort_by (by_health f) cs ≡ cs
    unfolding sort_by
    sort_by-tied [] h = refl
    sort_by-tied (c ∷ cs) h =
        ap (insert_by (by_health f) c) (sort_by-tied cs h.1)
        ∙ insert_by-front c cs (tied c cs h.0 h.1)

-- Where `partial_cmp` finds 0 / 1 equal to itself, a scan returns the first active users, in the order in
-- which the node lists them and no more than `max_candidates`: their health is 0 / 1 for all, so that
-- sorting by it moves none. Every account of the answer is counted once.
pub scan_users-IsFiltered :
    (f : Health) (drift : Drift) (accounts : List Account) (max_candidates : ℕ)
    → f.partial_cmp (f.quotient 0 1) (f.quotient 0 1) ≡ some equal
    → (cs : List (LiqCandidate f.H)) × IsFiltered f drift accounts cs
      × All (λ c. c.health ≡ f.quotient 0 1) cs
      × (scan_users f drift (some accounts) max_candidates ≡ some (take max_candidates cs))
      × (counted (scan_accounts f drift accounts new_scan) ≡ length accounts)
unfolding scan_users
scan_users-IsFiltered f drift accounts max_candidates reflexive =
    let r = scan_accounts-IsScanned f drift accounts new_scan in
    let healths = IsFiltered-health f drift r.filtered in
    (
      r.found,
      r.filtered,
      healths,
      ap (λ cs. some (take max_candidates (sort_by (by_health f) cs))) r.recorded
          ∙ ap (λ cs. some (take max_candidates cs))
              (sort_by-tied f drift reflexive r.found healths),
      omega (arith, r.counts),
    )
