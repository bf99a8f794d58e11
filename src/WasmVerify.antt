-- ===== src/WasmVerify.antt =====
-- The binding `verifySlotDelta` of crates/wasm-verify/src/lib.rs.
--
-- `serde_wasm_bindgen` and the decoders that serde derives are parameters; the decoder of the
-- transitions takes the decoder of a lamports field, which the source writes out. An error string is a
-- constructor with the values that are formatted into it.
use Prim.Native.String.{String}
use lattica.Prelude.{
  ℕ, Bool, true, false, not, Option, none, some, List, [], ◌∷◌, ◌==◌, if◌then◌else◌, length,
  replicate,
}
use lattica.Prelude.Bytes.{Bytes}
use lattica.Prelude.Buffers.{copy_from_slice}
use lattica.Prelude.Outcome.{Outcome, ok, err, panic, ◌>>=◌}
use lattica.LtHash.{Blake3, AccountForHash, n_limbs}
use lattica.Attest.{
  Attestation, AccountTransition, VerifyError, empty_transition, malformed_delta, delta_mismatch,
  verify_slot_delta,
}
pub mod Refines

-- The two kinds of `serde_json::Value` that a lamports field may have; any other is `other`.
pub data ValueKind (N : Type 0) : Type 0 where
  number : N → ValueKind N
  string : String → ValueKind N
  other : ValueKind N

-- `serde_json::Value`, `Number::as_u64` and `str::parse::<u64>`.
pub record SerdeJson : Type 1 where
  pub Value : Type 0
  pub Number : Type 0
  pub kind_of : Value → ValueKind Number
  pub as_u64 : Number → Option ℕ
  pub parse_u64 : String → Option ℕ

-- The three custom errors of `lamports_serde`.
pub data LamportsError : Type 0 where
  number_out_of_range : LamportsError
  string_not_u64 : LamportsError
  not_number_or_string : LamportsError

abbrev pub or_lamports_error : Option ℕ → LamportsError → Outcome LamportsError ℕ
or_lamports_error none e = err e
or_lamports_error (some n) e = ok n

-- `lamports_serde::deserialize`, from the value that was read.
unfoldable pub deserialize_lamports : (json : SerdeJson) → json.Value → Outcome LamportsError ℕ
deserialize_lamports json v = elim (json.kind_of v) [
  | number n ↦ or_lamports_error (json.as_u64 n) number_out_of_range
  | string s ↦ or_lamports_error (json.parse_u64 s) string_not_u64
  | other ↦ err not_number_or_string
]

pub record JsAccount : Type 0 where
  pub lamports : ℕ
  pub account_data : Bytes
  pub executable : Bool
  pub owner : Bytes
  pub pubkey : Bytes

pub record JsTransition : Type 0 where
  pub old : Option JsAccount
  pub new_ : Option JsAccount

-- `serde_wasm_bindgen::from_value` at the two types of the call.
pub record Bindgen (json : SerdeJson) : Type 1 where
  pub JsValue : Type 0
  pub ParseError : Type 0
  pub attestation_from_value : JsValue → Outcome ParseError Attestation
  pub transitions_from_value :
      (json.Value → Outcome LamportsError ℕ) → JsValue → Outcome ParseError (List JsTransition)

-- The error strings, with the lengths or checksums that are formatted into them.
pub data JsError (E : Type 0) : Type 0 where
  attestation_parse : E → JsError E
  transitions_parse : E → JsError E
  owner_length : ℕ → JsError E
  pubkey_length : ℕ → JsError E
  empty : JsError E
  malformed : JsError E
  mismatch : Bytes → Bytes → JsError E

abbrev pub map_err {ℓ κ μ} :
    {E : Type ℓ} {F : Type κ} {A : Type μ} → (E → F) → Outcome E A → Outcome F A
map_err f (ok a) = ok a
map_err f (err e) = err (f e)
map_err f panic = panic

module _ {E : Type 0} where
  unfoldable pub account_for_hash : JsAccount → Outcome (JsError E) AccountForHash
  account_for_hash a =
      if not (length a.owner == 32)
      then err (owner_length (length a.owner))
      else if not (length a.pubkey == 32)
      then err (pubkey_length (length a.pubkey))
      else do
        owner ← copy_from_slice (replicate 32 0) 0 32 a.owner
        pubkey ← copy_from_slice (replicate 32 0) 0 32 a.pubkey
        ok (record {
          lamports = a.lamports;
          account_data = a.account_data;
          executable = a.executable;
          owner = owner;
          pubkey = pubkey;
        })

  -- One side of a transition.
  unfoldable pub optional_account : Option JsAccount → Outcome (JsError E) (Option AccountForHash)
  optional_account none = ok none
  optional_account (some a) = do h ← account_for_hash a; ok (some h)

  -- The loop over `backing`.
  unfoldable pub convert : List JsTransition → Outcome (JsError E) (List AccountTransition)
  convert [] = ok []
  convert (t ∷ ts) = do
    old_h ← optional_account t.old
    new_h ← optional_account t.new_
    rest ← convert ts
    ok (record { old = old_h; new = new_h } ∷ rest)

  abbrev pub verdict_error : VerifyError → JsError E
  verdict_error empty_transition = empty
  verdict_error malformed_delta = malformed
  verdict_error (delta_mismatch attested recomputed) = mismatch attested recomputed

-- `null` is `tt`.
unfoldable pub verify_slot_delta_js :
    Blake3
    → (json : SerdeJson) → (js : Bindgen json) → js.JsValue
    → js.JsValue
    → Outcome (JsError js.ParseError) (Unit {0})
verify_slot_delta_js b json js attestation transitions = do
  att ← map_err attestation_parse (js.attestation_from_value attestation)
  backing ←
      map_err transitions_parse (js.transitions_from_value (deserialize_lamports json) transitions)
  ts ← convert backing
  map_err verdict_error (verify_slot_delta b att ts)

unfoldable pub lthash_limb_count : ℕ
lthash_limb_count = n_limbs
