-- ===== src/Prelude/Json.antt =====
-- What the calls of a JSON-RPC node return: serde_json's values with their accessors.
use lattica.Prelude.{ℕ, Bool, Option, List}
use lattica.Prelude.Bytes.{Bytes}

-- `field v k` is `v["k"]`, which is null where there is no such key; `get` tells whether there is.
pub record Json : Type 1 where
  pub Value : Type 0
  pub field : Value → Bytes → Value
  pub get : Value → Bytes → Option Value
  pub is_null : Value → Bool
  pub as_u64 : Value → Option ℕ
  pub as_str : Value → Option Bytes
  pub as_bool : Value → Option Bool
  pub as_array : Value → Option (List Value)

-- How a call of the node fails before there is a value.
pub data Failure : Type 0 where
  rpc_transport : Failure
  rpc_parse : Failure
