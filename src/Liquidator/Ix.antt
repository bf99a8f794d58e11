-- ===== src/Liquidator/Ix.antt =====
-- The `liquidate_perp` instruction of crates/liquidator/src/ix.rs.
--
-- A `BTreeSet` is the list of its members in their order; `insert` leaves a member that is equal to
-- the new one in its place. `User` and its positions are the fields that are read of drift-rs's
-- structures, with the answer of `is_available` as a field.
use lattica.Prelude.{
  ℕ, zero, suc, Bool, true, false, not, Option, none, some, List, [], ◌∷◌, ◌++◌, ltb, ◌==◌,
  if◌then◌else◌, map,
}
use lattica.Prelude.Bytes.{Bytes, to_le_bytes}
use lattica.Prelude.Outcome.{Outcome, ok, err, panic, ◌>>=◌}
use lattica.Liquidator.Markets.{Markets, MarketInfo, FindAddress, perp, spot}
pub mod Ordering
pub mod Accounts
pub mod Metas
pub mod Touched
pub mod Layout

abbrev pub liquidate_perp_discriminator : Bytes
liquidate_perp_discriminator = 75 ∷ 35 ∷ 119 ∷ 247 ∷ 191 ∷ 18 ∷ 139 ∷ 2 ∷ []

-- `std::cmp::Ordering`
pub data Order : Type 0 where
  less : Order
  equal : Order
  greater : Order

abbrev pub cmp_nat : ℕ → ℕ → Order
cmp_nat a b = if ltb a b then less else if a == b then equal else greater

-- `match first { Equal => second, o => o }`
abbrev pub or_else : Order → Order → Order
or_else less o = less
or_else equal o = o
or_else greater o = greater

-- The order of two arrays of bytes.
unfoldable pub cmp_bytes : Bytes → Bytes → Order
cmp_bytes [] [] = equal
cmp_bytes [] (y ∷ ys) = less
cmp_bytes (x ∷ xs) [] = greater
cmp_bytes (x ∷ xs) (y ∷ ys) = or_else (cmp_nat x y) (cmp_bytes xs ys)

pub data RemainingAccount : Type 0 where
  oracle_account : Bytes → RemainingAccount
  spot_account : Bytes → Bool → RemainingAccount
  perp_account : Bytes → Bool → RemainingAccount

unfoldable pub discriminant : RemainingAccount → ℕ
discriminant (oracle_account pubkey) = 0
discriminant (spot_account pubkey writable) = 1
discriminant (perp_account pubkey writable) = 2

unfoldable pub pubkey_of : RemainingAccount → Bytes
pubkey_of (oracle_account pubkey) = pubkey
pubkey_of (spot_account pubkey writable) = pubkey
pubkey_of (perp_account pubkey writable) = pubkey

pub record AccountMeta : Type 0 where
  pub pubkey : Bytes
  pub is_writable : Bool
  pub is_signer : Bool

unfoldable pub into_meta : RemainingAccount → AccountMeta
into_meta (oracle_account pubkey) = record {
  pubkey = pubkey;
  is_writable = false;
  is_signer = false;
}
into_meta (spot_account pubkey writable) = record {
  pubkey = pubkey;
  is_writable = writable;
  is_signer = false;
}
into_meta (perp_account pubkey writable) = record {
  pubkey = pubkey;
  is_writable = writable;
  is_signer = false;
}

-- `Ord::cmp`; the equality of the type is its `equal`.
unfoldable pub cmp : RemainingAccount → RemainingAccount → Order
cmp a b =
    or_else (cmp_nat (discriminant a) (discriminant b)) (cmp_bytes (pubkey_of a) (pubkey_of b))

-- `BTreeSet::insert`
unfoldable pub insert : RemainingAccount → List RemainingAccount → List RemainingAccount
insert a [] = a ∷ []
insert a (b ∷ ra) =
    let rest = insert a ra in
    elim (cmp a b) [ less ↦ a ∷ b ∷ ra | equal ↦ b ∷ ra | greater ↦ b ∷ rest ]

abbrev user_seed : Bytes
user_seed = 117 ∷ 115 ∷ 101 ∷ 114 ∷ []

abbrev user_stats_seed : Bytes
user_stats_seed = user_seed ++ (95 ∷ 115 ∷ 116 ∷ 97 ∷ 116 ∷ 115 ∷ [])

abbrev drift_state_seed : Bytes
drift_state_seed = 100 ∷ 114 ∷ 105 ∷ 102 ∷ 116 ∷ 95 ∷ 115 ∷ 116 ∷ 97 ∷ 116 ∷ 101 ∷ []

unfoldable pub state_pda : FindAddress → Bytes
state_pda find = find (drift_state_seed ∷ [])

unfoldable pub user_stats_pda : FindAddress → Bytes → Bytes
user_stats_pda find authority = find (user_stats_seed ∷ authority ∷ [])

unfoldable pub user_pda : FindAddress → Bytes → ℕ → Bytes
user_pda find authority sub_account_id =
    find (user_seed ∷ authority ∷ to_le_bytes 2 sub_account_id ∷ [])

pub record Position : Type 0 where
  pub market_index : ℕ
  pub is_available : Bool

pub record User : Type 0 where
  pub authority : Bytes
  pub spot_positions : List Position
  pub perp_positions : List Position

pub record Instruction : Type 0 where
  pub program_id : Bytes
  pub accounts : List AccountMeta
  pub ix_data : Bytes

-- The accounts of one market.
abbrev pub add_spot : Bool → MarketInfo → List RemainingAccount → List RemainingAccount
add_spot writable m ra =
    insert (oracle_account m.oracle) (insert (spot_account m.pubkey writable) ra)

abbrev pub add_perp : Bool → MarketInfo → List RemainingAccount → List RemainingAccount
add_perp writable m ra =
    insert (oracle_account m.oracle) (insert (perp_account m.pubkey writable) ra)

-- A loop over positions that are not available; `look` and `add` are of one kind of market.
unfoldable pub add_positions :
    (ℕ → Outcome ⊥ MarketInfo)
    → (MarketInfo → List RemainingAccount → List RemainingAccount)
    → List Position
    → List RemainingAccount
    → Outcome ⊥ (List RemainingAccount)
add_positions look add [] ra = ok ra
add_positions look add (p ∷ ps) ra =
    if p.is_available
    then add_positions look add ps ra
    else do m ← look p.market_index; add_positions look add ps (add m ra)

-- The body of the loop over the two users.
unfoldable pub add_user : Markets → User → List RemainingAccount → Outcome ⊥ (List RemainingAccount)
add_user markets u ra = do
  ra ← add_positions (spot markets) (add_spot false) u.spot_positions ra
  add_positions (perp markets) (add_perp false) u.perp_positions ra

unfoldable pub remaining_accounts : Markets → User → User → ℕ → Outcome ⊥ (List RemainingAccount)
remaining_accounts markets liquidator liquidatee market_index = do
  m ← perp markets market_index
  ra ← add_user markets liquidator (add_perp true m [])
  ra ← add_user markets liquidatee ra
  q ← spot markets 0
  ok (add_spot false q ra)

unfoldable pub base_accounts : FindAddress → Bytes → Bytes → Bytes → User → List AccountMeta
base_accounts find liquidator_authority liquidator_user liquidatee_user liquidatee =
    record { pubkey = state_pda find; is_writable = false; is_signer = false }
    ∷ record { pubkey = liquidator_authority; is_writable = false; is_signer = true }
    ∷ record { pubkey = liquidator_user; is_writable = true; is_signer = false }
    ∷ record {
      pubkey = user_stats_pda find liquidator_authority;
      is_writable = true;
      is_signer = false;
    }
    ∷ record { pubkey = liquidatee_user; is_writable = true; is_signer = false }
    ∷ record {
      pubkey = user_stats_pda find liquidatee.authority;
      is_writable = true;
      is_signer = false;
    }
    ∷ []

-- The bytes of `limit_price`.
abbrev pub limit_bytes : Option ℕ → Bytes
limit_bytes none = 0 ∷ []
limit_bytes (some p) = 1 ∷ to_le_bytes 8 p

unfoldable pub instruction_data : ℕ → ℕ → Option ℕ → Bytes
instruction_data market_index max_base limit_price =
    liquidate_perp_discriminator
    ++ (to_le_bytes 2 market_index ++ (to_le_bytes 8 max_base ++ limit_bytes limit_price))

unfoldable pub build_liquidate_perp_ix :
    FindAddress
    → Bytes
    → Bytes
    → Bytes
    → User
    → Bytes
    → User
    → ℕ
    → ℕ
    → Option ℕ
    → Markets
    → Outcome ⊥ Instruction
build_liquidate_perp_ix find program liquidator_authority liquidator_user liquidator liquidatee_user
      liquidatee market_index max_base limit_price markets =
    do
      ra ← remaining_accounts markets liquidator liquidatee market_index
      ok (record {
        program_id = program;
        accounts =
            base_accounts find liquidator_authority liquidator_user liquidatee_user liquidatee
            ++ map into_meta ra;
        ix_data = instruction_data market_index max_base limit_price;
      })
