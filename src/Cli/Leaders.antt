-- ===== src/Cli/Leaders.antt =====
-- `cmd_leaders` of crates/cli/src/main.rs: the leaders of consecutive slots, printed as runs.
--
-- The two arguments are the results of parsing them, and the schedule is the RPC node's answer; an
-- element that is no string is `none`. A printed line is a value.
use lattica.Prelude.{
  ℕ, zero, suc, ◌+◌, ◌-◌, Bool, true, false, not, ◌&&◌, Option, none, some, List, [], ◌∷◌, leb,
  if◌then◌else◌, length,
}
use lattica.Prelude.Bytes.{Bytes}
use lattica.Prelude.Outcome.{Outcome, ok, err, panic, ◌>>=◌}
use lattica.Prelude.Machine.{ExitCode, success, failure, str_eq, add_u64, sub_u64}
pub mod Runs

-- `  slot {first}..{last} → {leader}`
pub record Run : Type 0 where
  pub first : ℕ
  pub last : ℕ
  pub leader : Bytes

-- `Some(s) != prev`
abbrev pub is_new : Bytes → Option Bytes → Bool
is_new s none = true
is_new s (some p) = not (str_eq s p)

-- The line of the run that ends before the `i`-th slot.
unfoldable pub close_run : Bool → ℕ → ℕ → Option Bytes → ℕ → Outcome ⊥ (List Run)
close_run overflow_checks start i none run_start = ok []
close_run overflow_checks start i (some p) run_start = do
  next ← add_u64 overflow_checks start i
  last ← sub_u64 overflow_checks next 1
  ok (record { first = run_start; last = last; leader = p } ∷ [])

abbrev pub prepend : List Run → List Run → List Run
prepend [] rest = rest
prepend (r ∷ rs) rest = r ∷ prepend rs rest

-- The loop from the `i`-th leader on, and the line after it.
unfoldable pub runs_from :
    Bool → ℕ → ℕ → Option Bytes → ℕ → List (Option Bytes) → Outcome ⊥ (List Run)
runs_from overflow_checks start i prev run_start [] =
    close_run overflow_checks start i prev run_start
runs_from overflow_checks start i prev run_start (none ∷ leaders) = panic
runs_from overflow_checks start i prev run_start (some s ∷ leaders) =
    let same = runs_from overflow_checks start (suc i) prev run_start leaders in
    let changed =
      λ (run_start : ℕ). runs_from overflow_checks start (suc i) (some s) run_start leaders in
    if not (is_new s prev) then same else do
      closed ← close_run overflow_checks start i prev run_start
      run_start ← add_u64 overflow_checks start i
      rest ← changed run_start
      ok (prepend closed rest)

-- `getSlotLeaders` for a start and a count; `none` for a result that is no array.
abbrev pub Schedule : Type 0
Schedule = ℕ → ℕ → Option (List (Option Bytes))

abbrev pub or_panic {ℓ κ} : {E : Type ℓ} {A : Type κ} → Option A → Outcome E A
or_panic none = panic
or_panic (some a) = ok a

-- The lines that are printed, and the exit code.
unfoldable pub cmd_leaders : Bool → Schedule → Option ℕ → Option ℕ → Outcome ⊥ (List Run × ExitCode)
cmd_leaders overflow_checks schedule none count = ok ([], failure)
cmd_leaders overflow_checks schedule (some start) none = ok ([], failure)
cmd_leaders overflow_checks schedule (some start) (some count) =
    if not (leb 1 count && leb count 5000) then ok ([], failure) else do
      arr ← or_panic (schedule start count)
      lines ← runs_from overflow_checks start 0 none start arr
      ok (lines, success)
