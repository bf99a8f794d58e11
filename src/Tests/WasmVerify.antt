-- ===== src/Tests/WasmVerify.antt =====
-- The theorem on the binding, applied.
use lattica.Prelude.{ℕ, false, none, some, [], ◌∷◌, replicate, ◌≡◌, ◌↔◌}
use lattica.Prelude.Outcome.{ok, ◌>>=◌}
use lattica.WasmVerify.{
  SerdeJson, Bindgen, JsTransition, LamportsError, number, verify_slot_delta_js,
}
use lattica.WasmVerify.Refines.{IsConfirmed, verify_slot_delta_js-IsConfirmed_iff}
use lattica.Tests.Fixtures.{toy_blake3}

-- Every lamports field is a number.
abbrev toy_json : SerdeJson
toy_json = record {
  Value = ℕ;
  Number = ℕ;
  kind_of = λ v. number v;
  as_u64 = λ n. some n;
  parse_u64 = λ s. none;
}

abbrev created_with : ℕ → JsTransition
created_with lamports = record {
  old = none;
  new_ = some (record {
    lamports = lamports;
    account_data = [];
    executable = false;
    owner = replicate 32 1;
    pubkey = replicate 32 2;
  });
}

-- A JavaScript value is the lamports of one account that is created.
abbrev toy_bindgen : Bindgen toy_json
toy_bindgen = record {
  JsValue = ℕ;
  ParseError = LamportsError;
  attestation_from_value = λ v. ok (record {
    slot = v;
    fec_set_index = 0;
    leader_pubkey = replicate 32 0;
    fec_merkle_root = replicate 32 0;
    leader_sig = replicate 64 0;
    delta_lthash = replicate 1024 v;
  });
  transitions_from_value = λ decode v. decode v >>= λ lamports. ok (created_with lamports ∷ []);
}

verify_slot_delta_js-IsConfirmed_iff_example :
    (verify_slot_delta_js toy_blake3 toy_json toy_bindgen 3 500 ≡ ok tt)
    ↔ IsConfirmed toy_blake3 toy_json toy_bindgen 3 500
verify_slot_delta_js-IsConfirmed_iff_example =
    verify_slot_delta_js-IsConfirmed_iff toy_blake3 toy_json toy_bindgen 3 500
