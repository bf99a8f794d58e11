-- ===== src/Liquidator/Markets/Scan.antt =====
-- What a scan finds: the accounts before the first index at which the node returns none.
use lattica.Prelude.{
  ℕ, zero, suc, ◌+◌, ◌≤◌, ◌<◌, false, Option, none, some, [], ◌∷◌, ◌==◌, ==_iff, if_true, if_false,
  ◌≡◌, ◌⊎◌, refl, sym, ap, subst, ◌∙◌, inl, inr, Bool-cases, Option-cases, arith,
}
use lattica.Prelude.Bytes.{Bytes, to_le_bytes}
use lattica.Prelude.Outcome.{Outcome, ok, >>=-eq-ok}
use lattica.Liquidator.Markets.{
  MarketInfo, MarketMap, empty_map, insert_market, FindAddress, derive_pda, Market, Node, ScanError,
  decode_or_error, scan_from, scan_markets,
}

module _ (find : FindAddress) (node : Node) (seed : Bytes) (extract : Market → MarketInfo) where
  abbrev pub address : ℕ → Bytes
  address i = find (seed ∷ to_le_bytes 2 i ∷ [])

  -- The node returns an account at an index, it decodes, and the map holds what is extracted from it.
  abbrev pub IsFound : MarketMap → ℕ → Type 0
  IsFound out i =
      (acct : Bytes) × (market : Market) × (node.get_account i (address i) ≡ some acct)
      × (node.try_deserialize acct ≡ some market)
      × (out i ≡ some (extract market))

  -- A scan of the indices from `low` up to `stop` out of those below `high`.
  pub record IsScan (low high : ℕ) (before out : MarketMap) : Type 0 where
    pub stop : ℕ
    pub in_range : (low ≤ stop) × (stop ≤ high)
    pub found : (i : ℕ) → low ≤ i → i < stop → IsFound out i
    pub kept : (i : ℕ) → (i < low) ⊎ (stop ≤ i) → out i ≡ before i
    pub reason : (stop ≡ high) ⊎ (node.get_account stop (address stop) ≡ none)

  insert_other :
      (i key : ℕ) (info : MarketInfo) (map : MarketMap)
      → (i < key) ⊎ (key < i)
      → insert_market key info map i ≡ map i
  unfolding insert_market
  insert_other i key info map h = elim (Bool-cases (i == key)) [
    | inl e ↦ absurd (differ (==_iff i key).0 h e)
    | inr e ↦ if_false _ _ e
  ]
    where
      differ : {i key : ℕ} {P : Type 0} → (P → i ≡ key) → (i < key) ⊎ (key < i) → P → ⊥
      differ f h p = ground (arith, f p)

  insert_same :
      (key : ℕ) (info : MarketInfo) (map : MarketMap) → insert_market key info map key ≡ some info
  unfolding insert_market
  insert_same key info map = if_true _ _ ((==_iff key key).1 refl)

  decode_inv : (d : Option Market) (i : ℕ) (m : Market) → decode_or_error d i ≡ ok m → d ≡ some m
  decode_inv none i m h = cc
  decode_inv (some x) i m h = cc

  found-IsScan :
      (i high : ℕ) (before out : MarketMap) (acct : Bytes) (market : Market)
      → node.get_account i (address i) ≡ some acct
      → node.try_deserialize acct ≡ some market
      → IsScan (suc i) high (insert_market i (extract market) before) out
      → IsScan i high before out
  found-IsScan i high before out acct market got decoded s = record {
    stop = s.stop;
    in_range = (omega (arith, s.in_range.0), s.in_range.1);
    found = λ k lo hi. elim (Bool-cases (k == i)) [
      | inl e ↦
          let here : i ≡ k = sym ((==_iff k i).0 e) in
          subst (IsFound out) here (
            acct,
            market,
            got,
            decoded,
            s.kept i (inl (omega arith)) ∙ insert_same i (extract market) before,
          )
      | inr e ↦ s.found k (above k e lo) hi
    ];
    kept =
        λ k side. s.kept k (wider k side) ∙ insert_other k i (extract market) before (apart k side);
    reason = s.reason;
  }
    where
      above : (k : ℕ) → (k == i) ≡ false → i ≤ k → suc i ≤ k
      above k e lo = ground arith

      wider : (k : ℕ) → (k < i) ⊎ (s.stop ≤ k) → (k < suc i) ⊎ (s.stop ≤ k)
      wider k (inl a) = inl (omega arith)
      wider k (inr b) = inr b

      apart : (k : ℕ) → (k < i) ⊎ (s.stop ≤ k) → (k < i) ⊎ (i < k)
      apart k (inl a) = inl a
      apart k (inr b) = inr (omega (arith, s.in_range.0))

  scan_from-IsScan :
      (i left : ℕ) (before out : MarketMap)
      → scan_from find node seed extract i left before ≡ ok out
      → IsScan i (i + left) before out
  unfolding scan_from derive_pda
  scan_from-IsScan i zero before out h = record {
    stop = i;
    in_range = (omega arith, omega arith);
    found = λ k lo hi. absurd (omega arith);
    kept = λ k side. ap (λ m. m k) (same h);
    reason = inl (omega arith);
  }
    where
      same : {x y : MarketMap} → ◌≡◌ {A = Outcome ScanError MarketMap} (ok x) (ok y) → y ≡ x
      same e = cc
  scan_from-IsScan i (suc left) before out h =
      elim (Option-cases (node.get_account i (address i))) [
        | inl e ↦ record {
          stop = i;
          in_range = (omega arith, omega arith);
          found = λ k lo hi. absurd (omega arith);
          kept = λ k side. ap (λ m. m k) (same (rw (scan_from, e) at h));
          reason = inr e;
        }
        | inr (acct, e) ↦
            let (market, decoded, rest) =
              >>=-eq-ok (decode_or_error (node.try_deserialize acct) i) _
                (rw (scan_from, e) at h) in
            let high : suc i + left ≡ i + suc left = omega arith in
            found-IsScan i (i + suc left) before out acct market e
              (decode_inv (node.try_deserialize acct) i market decoded)
              (rw high at
                (scan_from-IsScan (suc i) left (insert_market i (extract market) before) out rest))
      ]
    where
      same : {x y : MarketMap} → ◌≡◌ {A = Outcome ScanError MarketMap} (ok x) (ok y) → y ≡ x
      same e = cc

-- A scan that succeeds stops at some index, which is `max` or the first index at which the call of the
-- node fails, whatever its error is: before it every account is returned and decodes, and the map holds
-- what is extracted from it; from it on the map is empty.
pub scan_markets-IsScan :
    (find : FindAddress) (node : Node) (seed : Bytes) (extract : Market → MarketInfo) (max : ℕ)
    (out : MarketMap)
    → scan_markets find node seed max extract ≡ ok out
    → IsScan find node seed extract 0 max empty_map out
unfolding scan_markets
scan_markets-IsScan find node seed extract max out h =
    let all : 0 + max ≡ max = omega arith in
    rw all at (scan_from-IsScan find node seed extract 0 max empty_map out h)
