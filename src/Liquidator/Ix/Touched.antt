-- ===== src/Liquidator/Ix/Touched.antt =====
-- The accounts of the instruction.
use lattica.Prelude.{
  ℕ, true, false, Option, some, List, [], ◌++◌, map, All, ◌≡◌, ◌⊎◌, refl, sym, ap, subst, ◌∙◌, inl,
  inr,
}
use lattica.Prelude.Bytes.{Bytes}
use lattica.Prelude.Outcome.{Outcome, ok, >>=-eq-ok}
use lattica.Liquidator.Markets.{Markets, MarketInfo, FindAddress, perp, spot}
use lattica.Liquidator.Ix.{
  RemainingAccount, oracle_account, spot_account, perp_account, AccountMeta, into_meta, insert,
  User, Instruction, add_spot, add_perp, add_user, remaining_accounts, build_liquidate_perp_ix,
}
use lattica.Liquidator.Ix.Ordering.{
  IsAscending, IsOrdered, IsAscending-IsOrdered, insert-IsAscending, IsIn, insert-keeps, HasKey,
  insert-HasKey, insert-All,
}
use lattica.Liquidator.Ix.Accounts.{
  Accounts, IsGrown, in_turn, HasMarket, IsTouched, add_lem, keeps_IsTouched, keeps_key,
  add_positions_lem,
}
use lattica.Liquidator.Ix.Metas.{
  AreMetas, map-AreMetas, program_accounts, base_accounts_lem, finds_perp, finds_spot,
}

-- An account that is not writable, unless it is the market with the address `pubkey`.
abbrev pub IsReadonlyBut : Bytes → RemainingAccount → Type 0
IsReadonlyBut pubkey (oracle_account k) = Unit
IsReadonlyBut pubkey (spot_account k writable) = writable ≡ false
IsReadonlyBut pubkey (perp_account k writable) = (writable ≡ false) ⊎ (k ≡ pubkey)

abbrev pub readable_spot : MarketInfo → RemainingAccount
readable_spot m = spot_account m.pubkey false

abbrev pub readable_perp : MarketInfo → RemainingAccount
readable_perp m = perp_account m.pubkey false

-- Every position of the user that is not available has its market and the oracle in the set.
pub record IsUserTouched (markets : Markets) (ra : Accounts) (u : User) : Type 0 where
  pub spots : All (IsTouched markets.spots readable_spot ra) u.spot_positions
  pub perps : All (IsTouched markets.perps readable_perp ra) u.perp_positions

module _ (markets : Markets) (pubkey : Bytes) where
  abbrev P : RemainingAccount → Type 0
  P = IsReadonlyBut pubkey

  spot_fits : (m : MarketInfo) → P (readable_spot m) × P (oracle_account m.oracle)
  spot_fits m = (refl, tt)

  perp_fits : (m : MarketInfo) → P (readable_perp m) × P (oracle_account m.oracle)
  perp_fits m = (inl refl, tt)

  keeps_user :
      (a b : Accounts) (u : User)
      → IsGrown P a b
      → IsUserTouched markets a u
      → IsUserTouched markets b u
  keeps_user a b u g t = record {
    spots =
        keeps_IsTouched P (spot markets) readable_spot markets.spots (finds_spot markets) spot_fits
          a b u.spot_positions g t.spots;
    perps =
        keeps_IsTouched P (perp markets) readable_perp markets.perps (finds_perp markets) perp_fits
          a b u.perp_positions g t.perps;
  }

  add_user_lem :
      (u : User) (ra out : Accounts)
      → add_user markets u ra ≡ ok out
      → IsGrown P ra out × IsUserTouched markets out u
  unfolding add_user
  add_user_lem u ra out h =
      let (middle, first, second) = >>=-eq-ok _ _ h in
      let (g, s) =
        add_positions_lem P (spot markets) readable_spot markets.spots (finds_spot markets)
          spot_fits u.spot_positions ra middle first in
      let (k, t) =
        add_positions_lem P (perp markets) readable_perp markets.perps (finds_perp markets)
          perp_fits u.perp_positions middle out second in
      (
        in_turn P ra middle out g k,
        record {
          spots =
              keeps_IsTouched P (spot markets) readable_spot markets.spots (finds_spot markets)
                spot_fits middle out u.spot_positions k s;
          perps = t;
        },
      )

-- The set of accounts that an instruction carries.
pub record IsAccountSet (markets : Markets) (liquidator liquidatee : User) (market_index : ℕ)
    (ra : Accounts) : Type 0 where
  pub ordered : IsOrdered ra
  pub market : MarketInfo
  pub market_found : markets.perps market_index ≡ some market
  pub market_writable : IsIn (perp_account market.pubkey true) ra
  pub market_oracle : HasKey (oracle_account market.oracle) ra
  pub rest_readonly : All (IsReadonlyBut market.pubkey) ra
  pub liquidator_touched : IsUserTouched markets ra liquidator
  pub liquidatee_touched : IsUserTouched markets ra liquidatee
  pub quote : MarketInfo
  pub quote_found : markets.spots 0 ≡ some quote
  pub quote_touched : HasMarket markets.spots readable_spot quote ra

-- The perp market that is liquidated, put in first.
module _ (m : MarketInfo) where
  abbrev first : Accounts
  first = insert (perp_account m.pubkey true) []

  start_writable : IsIn (perp_account m.pubkey true) (add_perp true m [])
  start_writable =
      insert-keeps (oracle_account m.oracle) (perp_account m.pubkey true) first
        (unfold insert in inl refl)

  start-IsAscending : IsAscending (add_perp true m [])
  start-IsAscending =
      insert-IsAscending (oracle_account m.oracle) first
        (insert-IsAscending (perp_account m.pubkey true) [] tt)

  start_readonly : All (IsReadonlyBut m.pubkey) (add_perp true m [])
  start_readonly =
      insert-All (IsReadonlyBut m.pubkey) (oracle_account m.oracle) first tt
        (insert-All (IsReadonlyBut m.pubkey) (perp_account m.pubkey true) [] (inr refl) tt)

module _ (markets : Markets) (liquidator liquidatee : User) (market_index : ℕ) where
  account_set :
      (m q : MarketInfo) (r1 r2 : Accounts)
      → perp {E = ⊥} markets market_index ≡ ok m
      → add_user markets liquidator (add_perp true m []) ≡ ok r1
      → add_user markets liquidatee r1 ≡ ok r2
      → spot {E = ⊥} markets 0 ≡ ok q
      → IsAccountSet markets liquidator liquidatee market_index (add_spot false q r2)
  account_set m q r1 r2 found e1 e2 quoted =
      let K = IsReadonlyBut m.pubkey in
      let start = add_perp true m [] in
      let out = add_spot false q r2 in
      let (g1, t1) = add_user_lem markets m.pubkey liquidator start r1 e1 in
      let (g2, t2) = add_user_lem markets m.pubkey liquidatee r1 r2 e2 in
      let (g3, t3) =
        add_lem K (spot markets) readable_spot markets.spots (finds_spot markets)
          (spot_fits markets m.pubkey) q r2 in
      let g23 = in_turn K r1 r2 out g2 g3 in
      let g = in_turn K start r1 out g1 g23 in
      record {
        ordered = IsAscending-IsOrdered out (g.ascending (start-IsAscending m));
        market = m;
        market_found = finds_perp markets market_index m found;
        market_writable = g.keeps (perp_account m.pubkey true) (start_writable m);
        market_oracle =
            keeps_key K (oracle_account m.oracle) start out g
              (insert-HasKey (oracle_account m.oracle) (first m));
        rest_readonly = g.flags (start_readonly m);
        liquidator_touched = keeps_user markets m.pubkey r1 out liquidator g23 t1;
        liquidatee_touched = keeps_user markets m.pubkey r2 out liquidatee g3 t2;
        quote = q;
        quote_found = finds_spot markets 0 q quoted;
        quote_touched = t3;
      }

  remaining_accounts-IsAccountSet :
      (ra : Accounts)
      → remaining_accounts markets liquidator liquidatee market_index ≡ ok ra
      → IsAccountSet markets liquidator liquidatee market_index ra
  unfolding remaining_accounts
  remaining_accounts-IsAccountSet ra h =
      let (m, found, h1) = >>=-eq-ok (perp markets market_index) _ h in
      let (r1, e1, h2) = >>=-eq-ok (add_user markets liquidator (add_perp true m [])) _ h1 in
      let (r2, e2, h3) = >>=-eq-ok (add_user markets liquidatee r1) _ h2 in
      let (q, quoted, h4) = >>=-eq-ok (spot markets 0) _ h3 in
      subst (IsAccountSet markets liquidator liquidatee market_index) (ok_same h4)
        (account_set m q r1 r2 found e1 e2 quoted)
    where
      ok_same : {a b : Accounts} → ◌≡◌ {A = Outcome ⊥ Accounts} (ok a) (ok b) → a ≡ b
      ok_same e = cc

-- An instruction that is built is for the program and has the program's six accounts first. Then it
-- passes, each with its address and flag and without a signature, the accounts of a set in strict order:
-- oracles, spot markets, perp markets, each by address. The set has the liquidated market, writable,
-- and its oracle; the quote market and its oracle; the market and the oracle of every position of
-- either user that is not available; and nothing in it is writable but the liquidated market.
pub build_liquidate_perp_ix-accounts :
    (find : FindAddress) (program authority user : Bytes) (liquidator : User) (target : Bytes)
    (liquidatee : User) (market_index max_base : ℕ) (limit_price : Option ℕ) (markets : Markets)
    (ix : Instruction)
    → build_liquidate_perp_ix find program authority user liquidator target liquidatee market_index
        max_base limit_price markets
      ≡ ok ix
    → (ix.program_id ≡ program)
      × ((ra : Accounts) × (metas : List AccountMeta) × (ix.accounts
            ≡ program_accounts find authority user target liquidatee.authority ++ metas)
          × AreMetas ra metas
          × IsAccountSet markets liquidator liquidatee market_index ra)
unfolding build_liquidate_perp_ix
build_liquidate_perp_ix-accounts find program authority user liquidator target liquidatee
      market_index max_base limit_price markets ix h =
    let (ra, e, done) =
      >>=-eq-ok (remaining_accounts markets liquidator liquidatee market_index) _ h in
    let base = base_accounts_lem find authority user target liquidatee in
    (
      ap (λ (i : Instruction). i.program_id) (built done),
      (
        ra,
        map into_meta ra,
        ap (λ (i : Instruction). i.accounts) (built done) ∙ ap (λ b. b ++ map into_meta ra) base,
        map-AreMetas ra,
        remaining_accounts-IsAccountSet markets liquidator liquidatee market_index ra e,
      ),
    )
  where
    built : {a b : Instruction} → ◌≡◌ {A = Outcome ⊥ Instruction} (ok a) (ok b) → b ≡ a
    built {a} {b} e = let same : a ≡ b = cc in sym same
