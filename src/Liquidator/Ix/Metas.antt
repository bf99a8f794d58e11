-- ===== src/Liquidator/Ix/Metas.antt =====
-- The accounts as the instruction passes them, and the markets that the lookups return.
use lattica.Prelude.{ℕ, true, false, Option, none, some, List, [], ◌∷◌, map, ◌≡◌, refl, ap}
use lattica.Prelude.Bytes.{Bytes}
use lattica.Prelude.Machine.{ascii}
use lattica.Prelude.Outcome.{ok}
use lattica.Liquidator.Markets.{Markets, MarketInfo, FindAddress, or_panic, perp, spot}
use lattica.Liquidator.Ix.{
  RemainingAccount, oracle_account, spot_account, perp_account, AccountMeta, into_meta, state_pda,
  user_stats_pda, User, base_accounts,
}
use lattica.Liquidator.Ix.Accounts.{Accounts}

-- What is passed for an account: its address and its flag; an oracle is read, and none signs.
abbrev pub IsMeta : RemainingAccount → AccountMeta → Type 0
IsMeta (oracle_account k) m = m ≡ record { pubkey = k; is_writable = false; is_signer = false }
IsMeta (spot_account k writable) m =
    m ≡ record { pubkey = k; is_writable = writable; is_signer = false }
IsMeta (perp_account k writable) m =
    m ≡ record { pubkey = k; is_writable = writable; is_signer = false }

abbrev pub AreMetas : Accounts → List AccountMeta → Type 0
AreMetas [] [] = Unit
AreMetas [] (m ∷ metas) = ⊥
AreMetas (a ∷ ra) [] = ⊥
AreMetas (a ∷ ra) (m ∷ metas) = IsMeta a m × AreMetas ra metas

into_meta-IsMeta : (a : RemainingAccount) → IsMeta a (into_meta a)
unfolding into_meta
into_meta-IsMeta (oracle_account k) = refl
into_meta-IsMeta (spot_account k writable) = refl
into_meta-IsMeta (perp_account k writable) = refl

pub map-AreMetas : (ra : Accounts) → AreMetas ra (map into_meta ra)
map-AreMetas [] = tt
map-AreMetas (a ∷ ra) = (into_meta-IsMeta a, map-AreMetas ra)

-- The accounts that the program's `liquidate_perp` takes: its state, the signing authority of the
-- liquidator, the liquidator's user and statistics, and the same two of the liquidatee.
abbrev pub program_accounts : FindAddress → Bytes → Bytes → Bytes → Bytes → List AccountMeta
program_accounts find authority user target target_authority =
    record { pubkey = find (ascii "drift_state" ∷ []); is_writable = false; is_signer = false }
    ∷ record { pubkey = authority; is_writable = false; is_signer = true }
    ∷ record { pubkey = user; is_writable = true; is_signer = false }
    ∷ record {
      pubkey = find (ascii "user_stats" ∷ authority ∷ []);
      is_writable = true;
      is_signer = false;
    }
    ∷ record { pubkey = target; is_writable = true; is_signer = false }
    ∷ record {
      pubkey = find (ascii "user_stats" ∷ target_authority ∷ []);
      is_writable = true;
      is_signer = false;
    }
    ∷ []

pub base_accounts_lem :
    (find : FindAddress) (authority user target : Bytes) (liquidatee : User)
    → base_accounts find authority user target liquidatee
      ≡ program_accounts find authority user target liquidatee.authority
unfolding base_accounts state_pda user_stats_pda
base_accounts_lem find authority user target liquidatee = refl

-- A lookup that returns reads the map.
or_panic-some : (o : Option MarketInfo) (m : MarketInfo) → or_panic {E = ⊥} o ≡ ok m → o ≡ some m
or_panic-some none m h = cc
or_panic-some (some info) m h = let same : info ≡ m = cc in ap some same

pub finds_perp :
    (markets : Markets) (i : ℕ) (m : MarketInfo)
    → perp {E = ⊥} markets i ≡ ok m
    → markets.perps i ≡ some m
unfolding perp
finds_perp markets i m h = or_panic-some (markets.perps i) m h

pub finds_spot :
    (markets : Markets) (i : ℕ) (m : MarketInfo)
    → spot {E = ⊥} markets i ≡ ok m
    → markets.spots i ≡ some m
unfolding spot
finds_spot markets i m h = or_panic-some (markets.spots i) m h
