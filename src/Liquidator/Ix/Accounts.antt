-- ===== src/Liquidator/Ix/Accounts.antt =====
-- The set of accounts grows: its order, its members and its flags while markets are added.
use lattica.Prelude.{ℕ, true, some, List, [], ◌∷◌, All, ◌≡◌, ◌⊎◌, subst, inl, inr, Bool-cases}
use lattica.Prelude.Outcome.{Outcome, ok, >>=-eq-ok}
use lattica.Liquidator.Markets.{MarketInfo, MarketMap}
use lattica.Liquidator.Ix.{RemainingAccount, oracle_account, insert, Position, add_positions}
use lattica.Liquidator.Ix.Ordering.{
  IsAscending, insert-IsAscending, IsIn, insert-keeps, HasKey, insert-HasKey, insert-All,
}

abbrev pub Accounts : Type 0
Accounts = List RemainingAccount

module _ (table : MarketMap) (account : MarketInfo → RemainingAccount) where
  -- The market and its oracle are in the set.
  abbrev pub HasMarket : MarketInfo → Accounts → Type 0
  HasMarket m ra = HasKey (account m) ra × HasKey (oracle_account m.oracle) ra

  -- The position is available, or the set has its market.
  abbrev pub IsTouched : Accounts → Position → Type 0
  IsTouched ra p =
      (p.is_available ≡ true)
      ⊎ ((m : MarketInfo) × (table p.market_index ≡ some m) × HasMarket m ra)

module _ (P : RemainingAccount → Type 0) where
  -- `out` has the members of `ra`, in strict order, and `P` holds of them as it does of those of `ra`.
  pub record IsGrown (ra out : Accounts) : Type 0 where
    pub ascending : IsAscending ra → IsAscending out
    pub keeps : (c : RemainingAccount) → IsIn c ra → IsIn c out
    pub flags : All P ra → All P out

  pub unchanged : (ra : Accounts) → IsGrown ra ra
  unchanged ra = record { ascending = λ h. h; keeps = λ c h. h; flags = λ h. h }

  pub in_turn : (a b c : Accounts) → IsGrown a b → IsGrown b c → IsGrown a c
  in_turn a b c g k = record {
    ascending = λ h. k.ascending (g.ascending h);
    keeps = λ x h. k.keeps x (g.keeps x h);
    flags = λ h. k.flags (g.flags h);
  }

  pub keeps_key :
      (a : RemainingAccount) (ra out : Accounts) → IsGrown ra out → HasKey a ra → HasKey a out
  keeps_key a ra out g (c, same, h) = (c, same, g.keeps c h)

  insert-IsGrown : (a : RemainingAccount) (ra : Accounts) → P a → IsGrown ra (insert a ra)
  insert-IsGrown a ra h = record {
    ascending = insert-IsAscending a ra;
    keeps = λ c. insert-keeps a c ra;
    flags = insert-All P a ra h;
  }

  module _ (look : ℕ → Outcome ⊥ MarketInfo) (account : MarketInfo → RemainingAccount)
      (table : MarketMap) (finds : (i : ℕ) (m : MarketInfo) → look i ≡ ok m → table i ≡ some m)
      (fits : (m : MarketInfo) → P (account m) × P (oracle_account m.oracle)) where
    abbrev pub add : MarketInfo → Accounts → Accounts
    add m ra = insert (oracle_account m.oracle) (insert (account m) ra)

    pub add_lem :
        (m : MarketInfo) (ra : Accounts)
        → IsGrown ra (add m ra) × HasMarket table account m (add m ra)
    add_lem m ra =
        let inner = insert (account m) ra in
        let first = insert-IsGrown (account m) ra (fits m).0 in
        let second = insert-IsGrown (oracle_account m.oracle) inner (fits m).1 in
        (
          in_turn ra inner (add m ra) first second,
          (
            keeps_key (account m) inner (add m ra) second (insert-HasKey (account m) ra),
            insert-HasKey (oracle_account m.oracle) inner,
          ),
        )

    pub keeps_IsTouched :
        (a b : Accounts) (ps : List Position)
        → IsGrown a b
        → All (IsTouched table account a) ps
        → All (IsTouched table account b) ps
    keeps_IsTouched a b [] g h = tt
    keeps_IsTouched a b (p ∷ ps) g h = (go h.0, keeps_IsTouched a b ps g h.1)
      where
        go : IsTouched table account a p → IsTouched table account b p
        go (inl e) = inl e
        go (inr (m, e, (k, o))) =
            inr (m, e, (keeps_key (account m) a b g k, keeps_key (oracle_account m.oracle) a b g o))

    pub add_positions_lem :
        (ps : List Position) (ra out : Accounts)
        → add_positions look add ps ra ≡ ok out
        → IsGrown ra out × All (IsTouched table account out) ps
    unfolding add_positions
    add_positions_lem [] ra out h =
        (let same : ra ≡ out = cc in subst (IsGrown ra) same (unchanged ra), tt)
    add_positions_lem (p ∷ ps) ra out h = elim (Bool-cases p.is_available) [
      | inl e ↦
          let (g, all) = add_positions_lem ps ra out (rw (add_positions, e) at h) in
          (g, (inl e, all))
      | inr e ↦
          let (m, found, rest) = >>=-eq-ok (look p.market_index) _ (rw (add_positions, e) at h) in
          let (g, all) = add_positions_lem ps (add m ra) out rest in
          let (first, (k, o)) = add_lem m ra in
          (
            in_turn ra (add m ra) out first g,
            (
              inr (
                m,
                finds p.market_index m found,
                (
                  keeps_key (account m) (add m ra) out g k,
                  keeps_key (oracle_account m.oracle) (add m ra) out g o,
                ),
              ),
              all,
            ),
          )
    ]
