-- ===== src/Liquidator/Scanner.antt =====
-- The scan of user accounts of crates/liquidator/src/scanner.rs.
--
-- What drift-rs does is a parameter: the size of its `User`, and its decoder, whose panics the scan
-- catches. The node's answer is an argument, `none` for its error.
use lattica.Prelude.{
  ℕ, zero, suc, ◌+◌, Bool, true, false, ◌||◌, not, Option, none, some, List, [], ◌∷◌, ◌==◌, ltb,
  if◌then◌else◌, length, take,
}
use lattica.Prelude.Bytes.{Bytes}
use lattica.Prelude.Outcome.{Outcome, ok, err, panic}
use lattica.Liquidator.Ix.{Order, less, equal, greater, Position, User}
pub mod Filter

-- What the decoder returns: the fields that `ix.rs` reads, the index of the sub-account and the two
-- flags of the status.
pub record DriftUser : Type 0 where
  pub user : User
  pub sub_account_id : ℕ
  pub is_being_liquidated : Bool
  pub is_bankrupt : Bool

pub record Drift : Type 0 where
  pub size_of_user : ℕ
  pub try_deserialize : Bytes → Outcome (Unit {0}) DriftUser

-- `f64`, as far as the scan needs it: a quotient and `partial_cmp`.
pub record Health : Type 1 where
  pub H : Type 0
  pub quotient : ℕ → ℕ → H
  pub partial_cmp : H → H → Option Order

-- An account of the node's answer: its address and its data.
pub record Account : Type 0 where
  pub pubkey : Bytes
  pub account_data : Bytes

pub record LiqCandidate (H : Type 0) : Type 0 where
  pub pubkey : Bytes
  pub authority : Bytes
  pub total_collateral_q6 : ℕ
  pub margin_requirement_q6 : ℕ
  pub health : H
  pub n_perp_positions : ℕ
  pub n_spot_positions : ℕ

-- `filter(|p| !p.is_available()).count()`
unfoldable pub open_count : List Position → ℕ
open_count [] = 0
open_count (p ∷ ps) = if p.is_available then open_count ps else suc (open_count ps)

-- The variables of the loop.
pub record Scan (H : Type 0) : Type 0 where
  pub candidates : List (LiqCandidate H)
  pub decode_failures : ℕ
  pub margin_failures : ℕ
  pub zero_margin : ℕ
  pub already_liquidating : ℕ
  pub size_mismatch : ℕ

-- `push`
abbrev pub push {ℓ} : {A : Type ℓ} → List A → A → List A
push [] x = x ∷ []
push (y ∷ ys) x = y ∷ push ys x

-- From the decoded user on. Collateral and margin are the constants that the source has for them.
unfoldable pub scan_user : (f : Health) → Bytes → DriftUser → Scan f.H → Scan f.H
scan_user f pubkey u s =
    let total_collateral : ℕ = 0 in
    let margin_requirement : ℕ = 1 in
    if u.is_being_liquidated || u.is_bankrupt
    then record s { already_liquidating = s.already_liquidating + 1 }
    else if margin_requirement == 0
    then record s { zero_margin = s.zero_margin + 1 }
    else record s {
      candidates = push s.candidates (record {
        pubkey = pubkey;
        authority = u.user.authority;
        total_collateral_q6 = total_collateral;
        margin_requirement_q6 = margin_requirement;
        health = f.quotient total_collateral margin_requirement;
        n_perp_positions = open_count u.user.perp_positions;
        n_spot_positions = open_count u.user.spot_positions;
      });
    }

-- The three results of `catch_unwind` around the decoder.
unfoldable pub scan_decoded :
    (f : Health) → Bytes → Outcome (Unit {0}) DriftUser → Scan f.H → Scan f.H
scan_decoded f pubkey (ok u) s = scan_user f pubkey u s
scan_decoded f pubkey (err e) s = record s { decode_failures = s.decode_failures + 1 }
scan_decoded f pubkey panic s = record s { decode_failures = s.decode_failures + 1 }

-- The body of the loop.
unfoldable pub scan_account : (f : Health) → Drift → Account → Scan f.H → Scan f.H
scan_account f drift a s =
    if not (length a.account_data == 8 + drift.size_of_user)
    then record s { size_mismatch = s.size_mismatch + 1 }
    else scan_decoded f a.pubkey (drift.try_deserialize a.account_data) s

unfoldable pub scan_accounts : (f : Health) → Drift → List Account → Scan f.H → Scan f.H
scan_accounts f drift [] s = s
scan_accounts f drift (a ∷ rest) s = scan_accounts f drift rest (scan_account f drift a s)

abbrev pub new_scan : {H : Type 0} → Scan H
new_scan = record {
  candidates = [];
  decode_failures = 0;
  margin_failures = 0;
  zero_margin = 0;
  already_liquidating = 0;
  size_mismatch = 0;
}

-- `partial_cmp(..).unwrap_or(Equal)`
unfoldable pub by_health : (f : Health) → LiqCandidate f.H → LiqCandidate f.H → Order
by_health f a b = elim (f.partial_cmp a.health b.health) [ none ↦ equal | some o ↦ o ]

-- `sort_by`, which is stable: a candidate goes before the first that is greater.
unfoldable pub insert_by {ℓ} : {A : Type ℓ} → (A → A → Order) → A → List A → List A
insert_by cmp x [] = x ∷ []
insert_by cmp x (y ∷ ys) =
    let rest = insert_by cmp x ys in
    elim (cmp x y) [ less ↦ x ∷ y ∷ ys | equal ↦ x ∷ y ∷ ys | greater ↦ y ∷ rest ]

unfoldable pub sort_by {ℓ} : {A : Type ℓ} → (A → A → Order) → List A → List A
sort_by cmp [] = []
sort_by cmp (x ∷ xs) = insert_by cmp x (sort_by cmp xs)

unfoldable pub scan_users :
    (f : Health) → Drift → Option (List Account) → ℕ → Option (List (LiqCandidate f.H))
scan_users f drift none max_candidates = none
scan_users f drift (some accounts) max_candidates =
    let s = scan_accounts f drift accounts new_scan in
    some (take max_candidates (sort_by (by_health f) s.candidates))
