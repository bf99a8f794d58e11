-- ===== src/Liquidator/Simulate.antt =====
-- The `simulate` mode of crates/liquidator/src/simulate.rs: the user that is picked, the instruction
-- that is built for it, and what the program's logs are taken to mean.
--
-- The market cache and the node's list of accounts are arguments. The transaction around the
-- instruction and the call that simulates it are drift-rs's and Solana's.
use lattica.Prelude.{
  ℕ, ◌+◌, ◌-◌, ◌^◌, Bool, true, false, ◌||◌, not, Option, none, some, List, [], ◌∷◌, ◌==◌,
  if◌then◌else◌, length,
}
use lattica.Prelude.Bytes.{Bytes}
use lattica.Prelude.Outcome.{Outcome, ok, err, panic, ◌>>=◌}
use lattica.Prelude.Machine.{ascii}
use lattica.Prelude.Strings.{contains}
use lattica.Liquidator.Markets.{Markets, LoadError, FindAddress}
use lattica.Liquidator.Ix.{Position, Instruction, user_pda, build_liquidate_perp_ix}
use lattica.Liquidator.Scanner.{DriftUser, Drift, Account}
pub mod Picked

pub record Candidate : Type 0 where
  pub pubkey : Bytes
  pub drift_user : DriftUser

-- `any(|p| !p.is_available())`
unfoldable pub has_open : List Position → Bool
has_open [] = false
has_open (p ∷ ps) = not p.is_available || has_open ps

unfoldable pub choose_user : Bytes → DriftUser → Option Candidate
choose_user pubkey u =
    if u.is_being_liquidated || u.is_bankrupt
    then none
    else if has_open u.user.perp_positions
    then some (record { pubkey = pubkey; drift_user = u })
    else none

unfoldable pub choose_decoded : Bytes → Outcome (Unit {0}) DriftUser → Option Candidate
choose_decoded pubkey (ok u) = choose_user pubkey u
choose_decoded pubkey (err e) = none
choose_decoded pubkey panic = none

-- The body of the loop; `none` for `continue` and where the loop goes on.
unfoldable pub choose : Drift → Account → Option Candidate
choose drift a =
    if not (length a.account_data == 8 + drift.size_of_user)
    then none
    else choose_decoded a.pubkey (drift.try_deserialize a.account_data)

abbrev pub or_later {ℓ} : {A : Type ℓ} → Option A → Option A → Option A
or_later none later = later
or_later (some a) later = some a

-- `none` for the error at the end of the loop.
unfoldable pub pick_candidate_with_perp_position : Drift → List Account → Option Candidate
pick_candidate_with_perp_position drift [] = none
pick_candidate_with_perp_position drift (a ∷ rest) =
    or_later (choose drift a) (pick_candidate_with_perp_position drift rest)

-- `find(|p| !p.is_available()).map(|p| p.market_index)`
unfoldable pub first_open_market : List Position → Option ℕ
first_open_market [] = none
first_open_market (p ∷ ps) =
    let rest = first_open_market ps in if p.is_available then rest else some p.market_index

pub data SimulateError : Type 0 where
  load_markets : LoadError → SimulateError
  get_program_accounts : SimulateError
  no_candidate : SimulateError
  no_perp_positions : SimulateError

abbrev pub or_error {ℓ} : {A : Type ℓ} → Option A → SimulateError → Outcome SimulateError A
or_error none e = err e
or_error (some a) e = ok a

abbrev pub loaded : Outcome LoadError Markets → Outcome SimulateError Markets
loaded (ok markets) = ok markets
loaded (err e) = err (load_markets e)
loaded panic = panic

abbrev pub infallible {ℓ κ} : {E : Type ℓ} {A : Type κ} → Outcome ⊥ A → Outcome E A
infallible (ok a) = ok a
infallible (err e) = elim e [ ]
infallible panic = panic

-- `run` up to the instruction: the user is liquidator and liquidatee, the amount is `u64::MAX` and
-- there is no limit price.
unfoldable pub prepare :
    FindAddress
    → Bytes
    → Drift
    → Outcome LoadError Markets
    → Option (List Account)
    → Outcome SimulateError Instruction
prepare find program drift markets accounts = do
  markets ← loaded markets
  accounts ← or_error accounts get_program_accounts
  candidate ← or_error (pick_candidate_with_perp_position drift accounts) no_candidate
  let u = candidate.drift_user
  market_index ← or_error (first_open_market u.user.perp_positions) no_perp_positions
  let authority = u.user.authority
  infallible (
      build_liquidate_perp_ix find program authority (user_pda find authority u.sub_account_id)
        u.user candidate.pubkey u.user market_index (2 ^ 64 - 1) none markets)

-- `signals.iter().any(|s| line.contains(s))`
unfoldable pub contains_any : List Bytes → Bytes → Bool
contains_any [] line = false
contains_any (s ∷ signals) line = contains s line || contains_any signals line

-- The loop over the lines, for one of the two flags.
unfoldable pub any_line : List Bytes → List Bytes → Bool
any_line signals [] = false
any_line signals (line ∷ lines) = contains_any signals line || any_line signals lines

abbrev pub success_signals : List Bytes
success_signals =
    ascii "SufficientCollateral"
    ∷ ascii "UserHasInvalidLiquidation"
    ∷ ascii "UserNotBeingLiquidated"
    ∷ ascii "InvalidLiquidation"
    ∷ []

abbrev pub layout_signals : List Bytes
layout_signals =
    ascii "AccountDidNotDeserialize"
    ∷ ascii "ConstraintSeeds"
    ∷ ascii "AccountNotEnoughKeys"
    ∷ ascii "AccountOwnedByWrongProgram"
    ∷ ascii "InvalidProgramId"
    ∷ ascii "instruction modified data of an account it does not own"
    ∷ []

-- The four messages.
pub data Interpretation : Type 0 where
  structure_correct : Interpretation
  layout_wrong : Interpretation
  no_error : Interpretation
  unrecognized : Interpretation

abbrev pub lines_of : Option (List Bytes) → List Bytes
lines_of none = []
lines_of (some lines) = lines

unfoldable pub interpret : Bool → Option (List Bytes) → Interpretation
interpret failed logs =
    if any_line success_signals (lines_of logs)
    then structure_correct
    else if any_line layout_signals (lines_of logs)
    then layout_wrong
    else if not failed
    then no_error
    else unrecognized
