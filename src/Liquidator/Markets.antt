-- ===== src/Liquidator/Markets.antt =====
-- The market cache of crates/liquidator/src/markets.rs.
--
-- A `Pubkey` is a byte string. A `HashMap` is a function from keys to options. The RPC node is a
-- function of the number of the call and of the address; `none` is any error of the call, of which an
-- account that does not exist is one.
use lattica.Prelude.{ℕ, zero, suc, ◌+◌, Option, none, some, List, [], ◌∷◌, ◌==◌, if◌then◌else◌}
use lattica.Prelude.Bytes.{Bytes, to_le_bytes}
use lattica.Prelude.Outcome.{Outcome, ok, err, panic, ◌>>=◌}
pub mod Scan

pub record MarketInfo : Type 0 where
  pub pubkey : Bytes
  pub oracle : Bytes

abbrev pub MarketMap : Type 0
MarketMap = ℕ → Option MarketInfo

pub record Markets : Type 0 where
  pub perps : MarketMap
  pub spots : MarketMap

abbrev pub empty_map : MarketMap
empty_map index = none

-- `HashMap::insert`
unfoldable pub insert_market : ℕ → MarketInfo → MarketMap → MarketMap
insert_market key info map index = if index == key then some info else map index

-- `get` and `unwrap_or_else(panic)`
abbrev pub or_panic {ℓ} : {E : Type ℓ} → Option MarketInfo → Outcome E MarketInfo
or_panic none = panic
or_panic (some info) = ok info

unfoldable pub perp {ℓ} : {E : Type ℓ} → Markets → ℕ → Outcome E MarketInfo
perp markets index = or_panic (markets.perps index)

unfoldable pub spot {ℓ} : {E : Type ℓ} → Markets → ℕ → Outcome E MarketInfo
spot markets index = or_panic (markets.spots index)

-- `Pubkey::find_program_address` under the program's own address.
abbrev pub FindAddress : Type 0
FindAddress = List Bytes → Bytes

unfoldable pub derive_pda : FindAddress → Bytes → ℕ → Bytes
derive_pda find seed market_index = find (seed ∷ to_le_bytes 2 market_index ∷ [])

-- What the decoders of drift-rs return, in the fields that are read.
pub record Market : Type 0 where
  pub market_index : ℕ
  pub oracle : Bytes

-- `get_account` and `try_deserialize`.
pub record Node : Type 0 where
  pub get_account : ℕ → Bytes → Option Bytes
  pub try_deserialize : Bytes → Option Market

-- The index whose account does not decode.
pub data ScanError : Type 0 where
  decode_market : ℕ → ScanError

abbrev pub decode_or_error : Option Market → ℕ → Outcome ScanError Market
decode_or_error none i = err (decode_market i)
decode_or_error (some m) i = ok m

-- The loop from index `i` on, with the number of indices that are left.
unfoldable pub scan_from :
    FindAddress
    → Node
    → Bytes
    → (Market → MarketInfo)
    → ℕ
    → ℕ
    → MarketMap
    → Outcome ScanError MarketMap
scan_from find node seed extract i zero out = ok out
scan_from find node seed extract i (suc left) out =
    elim (node.get_account i (derive_pda find seed i)) [
      | none ↦ ok out
      | some acct ↦ do
        market ← decode_or_error (node.try_deserialize acct) i
        scan_from find node seed extract (suc i) left (insert_market i (extract market) out)
    ]

unfoldable pub scan_markets :
    FindAddress → Node → Bytes → ℕ → (Market → MarketInfo) → Outcome ScanError MarketMap
scan_markets find node seed max extract = scan_from find node seed extract 0 max empty_map

abbrev pub perp_market : Bytes
perp_market = 112 ∷ 101 ∷ 114 ∷ 112 ∷ 95 ∷ 109 ∷ 97 ∷ 114 ∷ 107 ∷ 101 ∷ 116 ∷ []

abbrev pub spot_market : Bytes
spot_market = 115 ∷ 112 ∷ 111 ∷ 116 ∷ 95 ∷ 109 ∷ 97 ∷ 114 ∷ 107 ∷ 101 ∷ 116 ∷ []

-- Which list could not be loaded.
pub data LoadError : Type 0 where
  scan_perp_markets : ScanError → LoadError
  scan_spot_markets : ScanError → LoadError

-- `with_context`
abbrev pub context {ℓ} :
    {A : Type ℓ} → (ScanError → LoadError) → Outcome ScanError A → Outcome LoadError A
context f (ok a) = ok a
context f (err e) = err (f e)
context f panic = panic

-- The two markets are decoded as their own types, so each scan has its own node.
unfoldable pub load : FindAddress → Node → Node → Outcome LoadError Markets
load find perp_node spot_node = do
  perps ← context scan_perp_markets (
      scan_markets find perp_node perp_market 64
        (λ m. record { pubkey = derive_pda find perp_market m.market_index; oracle = m.oracle }))
  spots ← context scan_spot_markets (
      scan_markets find spot_node spot_market 64
        (λ m. record { pubkey = derive_pda find spot_market m.market_index; oracle = m.oracle }))
  ok (record { perps = perps; spots = spots })
