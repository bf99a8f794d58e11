-- ===== src/Cli/Leaders/Runs.antt =====
-- The printed runs are the schedule.
use lattica.Prelude.{
  ℕ, suc, ◌+◌, ◌-◌, ◌≤◌, Bool, true, Option, none, some, List, [], ◌∷◌, ◌++◌, map, length,
  replicate, ◌≡◌,
}
use lattica.Prelude.Bytes.{Bytes}
use lattica.Prelude.Outcome.{ok}
use lattica.Prelude.Machine.{success}
use lattica.Cli.Leaders.{Run, is_new, runs_from, Schedule, cmd_leaders}

-- The leader of every slot of the runs.
abbrev pub expand : List Run → List Bytes
expand [] = []
expand (r ∷ rs) = replicate (suc r.last - r.first) r.leader ++ expand rs

-- The runs follow one another from a slot up to the one before another slot, and the leader changes
-- from each run to the next.
abbrev pub IsTiling : ℕ → ℕ → Option Bytes → List Run → Type 0
IsTiling from to prev [] = from ≡ to
IsTiling from to prev (r ∷ rs) =
    (r.first ≡ from)
    × (r.first ≤ r.last)
    × (is_new r.leader prev ≡ true)
    × IsTiling (suc r.last) to (some r.leader) rs

module _ (c : Bool) (start : ℕ) where
  -- What is still printed, where the current run is `p`'s from `run_start` on.
  pub record IsRest (i run_start : ℕ) (p : Bytes) (prev : Option Bytes) (leaders : List Bytes)
      : Type 0 where
    pub lines : List Run
    pub printed : runs_from c start i (some p) run_start (map some leaders) ≡ ok lines
    pub expanded : expand lines ≡ replicate (start + i - run_start) p ++ leaders
    pub tiled : IsTiling run_start (start + i + length leaders) prev lines

-- What is printed for a schedule of `n` leaders from a slot on.
pub record IsPrinted (c : Bool) (schedule : Schedule) (start count : ℕ) (leaders : List Bytes)
    : Type 0 where
  pub lines : List Run
  pub printed : cmd_leaders c schedule (some start) (some count) ≡ ok (lines, success)
  pub expanded : expand lines ≡ leaders
  pub tiled : IsTiling start (start + length leaders) none lines
