-- ===== src/Tests/Liquidator.antt =====
-- The theorems on the liquidator, applied.
use lattica.Prelude.{
  ℕ, true, false, none, some, List, [], ◌∷◌, ◌==◌, get_or, replicate, take, All, ◌++◌, map, length,
  ltb, if◌then◌else◌, ◌≡◌, refl, arith,
}
use lattica.Prelude.Outcome.{ok}
use lattica.Liquidator.Markets.{
  MarketInfo, Markets, MarketMap, empty_map, insert_market, FindAddress, Market, Node, scan_from,
  scan_markets, perp, spot,
}
use lattica.Liquidator.Markets.Scan.{IsScan, scan_markets-IsScan}
use mathlib.Core.Option.{map as option_map}
use lattica.Prelude.Bytes.{Bytes}
use lattica.Liquidator.Scanner.{
  Drift, Health, Account, LiqCandidate, scan_accounts, new_scan, scan_users,
}
use lattica.Liquidator.Scanner.Filter.{IsFiltered, counted, scan_users-IsFiltered}
use lattica.Liquidator.Simulate.{pick_candidate_with_perp_position}
use lattica.Liquidator.Simulate.Picked.{as_candidate, first_with_perp, pick_candidate-first}
use lattica.Liquidator.Ix.{
  equal, User, AccountMeta, Instruction, oracle_account, spot_account, perp_account, into_meta,
  insert, cmp, cmp_bytes, discriminant, pubkey_of, add_positions, add_user, remaining_accounts,
  base_accounts, instruction_data, build_liquidate_perp_ix,
}
use lattica.Liquidator.Ix.Accounts.{Accounts}
use lattica.Liquidator.Ix.Metas.{program_accounts, AreMetas}
use lattica.Liquidator.Ix.Touched.{IsAccountSet, build_liquidate_perp_ix-accounts}
use lattica.Liquidator.Ix.Layout.{read_data, instruction_data-read_data}

abbrev toy_find : FindAddress
toy_find [] = []
toy_find (seed ∷ seeds) = seed ++ toy_find seeds

abbrev market : ℕ → MarketInfo
market i = record { pubkey = i ∷ []; oracle = 100 ∷ [] }

abbrev markets : Markets
markets = record { perps = λ i. some (market i); spots = λ i. some (market i) }

abbrev user : ℕ → User
user i = record {
  authority = i ∷ [];
  spot_positions =
      record { market_index = 4; is_available = false }
      ∷ record { market_index = 9; is_available = true }
      ∷ [];
  perp_positions = record { market_index = i; is_available = false } ∷ [];
}

abbrev remaining : Accounts
remaining =
    oracle_account (100 ∷ [])
    ∷ spot_account (0 ∷ []) false
    ∷ spot_account (4 ∷ []) false
    ∷ perp_account (1 ∷ []) false
    ∷ perp_account (2 ∷ []) true
    ∷ []

abbrev ix : Instruction
ix = record {
  program_id = 0 ∷ [];
  accounts = base_accounts toy_find (1 ∷ []) (5 ∷ []) (6 ∷ []) (user 2) ++ map into_meta remaining;
  ix_data = instruction_data 2 1000 (some 7);
}

ix_built :
    build_liquidate_perp_ix toy_find
      (0 ∷ [])
      (1 ∷ [])
      (5 ∷ [])
      (user 1)
      (6 ∷ [])
      (user 2)
      2
      1000
      (some 7)
      markets
    ≡ ok ix
unfolding build_liquidate_perp_ix remaining_accounts add_user add_positions perp spot insert cmp
    cmp_bytes discriminant pubkey_of
ix_built = refl

build_liquidate_perp_ix-accounts_example :
    (ix.program_id ≡ 0 ∷ [])
    × ((ra : Accounts) × (metas : List AccountMeta) × (ix.accounts
          ≡ program_accounts toy_find (1 ∷ []) (5 ∷ []) (6 ∷ []) (2 ∷ []) ++ metas)
        × AreMetas ra metas
        × IsAccountSet markets (user 1) (user 2) 2 ra)
build_liquidate_perp_ix-accounts_example =
    build_liquidate_perp_ix-accounts toy_find (0 ∷ []) (1 ∷ []) (5 ∷ []) (user 1) (6 ∷ []) (user 2)
      2 1000 (some 7) markets ix ix_built

instruction_data-read_data_example :
    read_data (instruction_data 2 1000 (some 7)) ≡ (2, 1000, some 7)
instruction_data-read_data_example =
    instruction_data-read_data 2 1000 (some 7) (omega arith) (omega arith) (omega arith)

-- Two markets exist.
abbrev toy_node : Node
toy_node = record {
  get_account = λ i address. if ltb i 2 then some (i ∷ []) else none;
  try_deserialize = λ acct. some (record { market_index = length acct; oracle = acct });
}

abbrev extract : Market → MarketInfo
extract m = record { pubkey = m.market_index ∷ []; oracle = m.oracle }

abbrev found : MarketMap
found =
    insert_market 1 (record { pubkey = 1 ∷ []; oracle = 1 ∷ [] })
      (insert_market 0 (record { pubkey = 1 ∷ []; oracle = 0 ∷ [] }) empty_map)

scan_found : scan_markets toy_find toy_node (7 ∷ []) 64 extract ≡ ok found
unfolding scan_markets scan_from
scan_found = refl

scan_markets-IsScan_example : IsScan toy_find toy_node (7 ∷ []) extract 0 64 empty_map found
scan_markets-IsScan_example =
    scan_markets-IsScan toy_find toy_node (7 ∷ []) extract 64 found scan_found

-- Health is a pair of numbers, of which equal ones are equal.
abbrev toy_health : Health
toy_health = record { H = ℕ × ℕ; quotient = λ a b. (a, b); partial_cmp = λ a b. some equal }

-- An account of nine bytes: its last byte tells whether it is being liquidated, and its first where it
-- has a perp position.
abbrev toy_drift : Drift
toy_drift = record {
  size_of_user = 1;
  try_deserialize = λ bytes. ok (record {
    user = record {
      authority = bytes;
      spot_positions = [];
      perp_positions =
          record { market_index = get_or bytes 0 0; is_available = get_or bytes 0 0 == 0 } ∷ [];
    };
    sub_account_id = 0;
    is_being_liquidated = get_or bytes 8 0 == 1;
    is_bankrupt = false;
  });
}

abbrev nine : ℕ → ℕ → Bytes
nine first last = first ∷ (replicate 7 0 ++ (last ∷ []))

-- One that is too short, one that is being liquidated, one without a position and one with.
abbrev accounts : List Account
accounts =
    record { pubkey = 1 ∷ []; account_data = [] }
    ∷ record { pubkey = 2 ∷ []; account_data = nine 3 1 }
    ∷ record { pubkey = 3 ∷ []; account_data = nine 0 0 }
    ∷ record { pubkey = 4 ∷ []; account_data = nine 6 0 }
    ∷ []

scan_users-IsFiltered_example :
    (cs : List (LiqCandidate (ℕ × ℕ))) × IsFiltered toy_health toy_drift accounts cs
    × All (λ c. c.health ≡ (0, 1)) cs
    × (scan_users toy_health toy_drift (some accounts) 1 ≡ some (take 1 cs))
    × (counted (scan_accounts toy_health toy_drift accounts new_scan) ≡ 4)
scan_users-IsFiltered_example = scan_users-IsFiltered toy_health toy_drift accounts 1 refl

pick_candidate-first_example :
    option_map
      (as_candidate toy_health toy_drift)
      (pick_candidate_with_perp_position toy_drift accounts)
    ≡ first_with_perp toy_health toy_drift
        (scan_accounts toy_health toy_drift accounts new_scan).candidates
pick_candidate-first_example = pick_candidate-first toy_health toy_drift accounts
