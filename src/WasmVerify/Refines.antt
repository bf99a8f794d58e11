-- ===== src/WasmVerify/Refines.antt =====
-- The binding decides as the slot verifier does on the accounts that it was given.
use mathlib.Core.List.{append-nil}
use lattica.Prelude.{
  Option, none, some, List, [], ◌∷◌, map, length, replicate, ◌==◌, ==_iff, All, ◌≡◌, ◌↔◌, refl, sym,
  ap, ◌∙◌, inl, inr, Bool-cases,
}
use lattica.Prelude.Bytes.{Bytes}
use lattica.Prelude.Buffers.{copy_from_slice, copy-join}
use lattica.Prelude.Outcome.{Outcome, ok, err, panic, >>=-eq-ok}
use lattica.LtHash.{Blake3, AccountForHash}
use lattica.Attest.{Attestation, AccountTransition, verify_slot_delta}
use lattica.WasmVerify.{
  SerdeJson, Bindgen, JsAccount, JsTransition, JsError, attestation_parse, transitions_parse,
  verdict_error, map_err, deserialize_lamports, account_for_hash, optional_account, convert,
  verify_slot_delta_js,
}

-- The account of the hash, with the same fields.
abbrev pub same_account : JsAccount → AccountForHash
same_account a = record {
  lamports = a.lamports;
  account_data = a.account_data;
  executable = a.executable;
  owner = a.owner;
  pubkey = a.pubkey;
}

abbrev pub same_side : Option JsAccount → Option AccountForHash
same_side none = none
same_side (some a) = some (same_account a)

abbrev pub same_transition : JsTransition → AccountTransition
same_transition t = record { old = same_side t.old; new = same_side t.new_ }

-- An account whose owner and key have 32 bytes.
abbrev pub IsSizedSide : Option JsAccount → Type 0
IsSizedSide none = Unit
IsSizedSide (some a) = (length a.owner ≡ 32) × (length a.pubkey ≡ 32)

abbrev pub IsSized : JsTransition → Type 0
IsSized t = IsSizedSide t.old × IsSizedSide t.new_

fill_32 :
    {E : Type 0} (src : Bytes)
    → length src ≡ 32
    → copy_from_slice {E = E} (replicate 32 0) 0 32 src ≡ ok src
fill_32 {E} src h =
    copy-join {E = E} [] (replicate 32 0) [] src 0 32 refl refl h ∙ ap ok (append-nil src)

module _ {E : Type 0} where
  account_for_hash-ok :
      (a : JsAccount)
      → length a.owner ≡ 32
      → length a.pubkey ≡ 32
      → account_for_hash {E = E} a ≡ ok (same_account a)
  unfolding account_for_hash
  account_for_hash-ok a h k =
      rw
        (
          (==_iff (length a.owner) 32).1 h,
          (==_iff (length a.pubkey) 32).1 k,
          fill_32 {E = JsError E} a.owner h,
          fill_32 {E = JsError E} a.pubkey k,
        )
        refl

  account_for_hash_inv :
      (a : JsAccount) (r : AccountForHash)
      → account_for_hash {E = E} a ≡ ok r
      → (length a.owner ≡ 32) × (length a.pubkey ≡ 32)
  unfolding account_for_hash
  account_for_hash_inv a r h = elim (Bool-cases (length a.owner == 32)) [
    | inr e ↦ cc (rw e at h)
    | inl e ↦ elim (Bool-cases (length a.pubkey == 32)) [
      | inr f ↦ cc (rw (e, f) at h)
      | inl f ↦ ((==_iff (length a.owner) 32).0 e, (==_iff (length a.pubkey) 32).0 f)
    ]
  ]

  side_ok :
      (side : Option JsAccount)
      → IsSizedSide side
      → optional_account {E = E} side ≡ ok (same_side side)
  unfolding optional_account
  side_ok none h = refl
  side_ok (some a) h = rw (account_for_hash-ok a h.0 h.1) refl

  side_inv :
      (side : Option JsAccount) (r : Option AccountForHash)
      → optional_account {E = E} side ≡ ok r
      → IsSizedSide side
  unfolding optional_account
  side_inv none r h = tt
  side_inv (some a) r h =
      let (x, e, _) = >>=-eq-ok (account_for_hash {E = E} a) _ h in account_for_hash_inv a x e

  convert_ok :
      (ts : List JsTransition) → All IsSized ts → convert {E = E} ts ≡ ok (map same_transition ts)
  unfolding convert
  convert_ok [] h = refl
  convert_ok (t ∷ ts) h = rw (side_ok t.old h.0.0, side_ok t.new_ h.0.1, convert_ok ts h.1) refl

  convert_inv :
      (ts : List JsTransition) (r : List AccountTransition)
      → convert {E = E} ts ≡ ok r
      → All IsSized ts
  unfolding convert
  convert_inv [] r h = tt
  convert_inv (t ∷ ts) r h =
      let (x, ex, hx) = >>=-eq-ok (optional_account {E = E} t.old) _ h in
      let (y, ey, hy) = >>=-eq-ok (optional_account {E = E} t.new_) _ hx in
      let (z, ez, _) = >>=-eq-ok (convert {E = E} ts) _ hy in
      ((side_inv t.old x ex, side_inv t.new_ y ey), convert_inv ts z ez)

map_err_inv : {E F A : Type 0} (f : E → F) (m : Outcome E A) {a : A} → map_err f m ≡ ok a → m ≡ ok a
map_err_inv f (ok x) h = cc
map_err_inv f (err e) h = cc
map_err_inv f panic h = cc

-- What stands behind a call that returns `null`.
pub record IsConfirmed (b : Blake3) (json : SerdeJson) (js : Bindgen json)
    (attestation transitions : js.JsValue) : Type 0 where
  pub att : Attestation
  pub backing : List JsTransition
  pub attestation_parsed : js.attestation_from_value attestation ≡ ok att
  pub transitions_parsed :
      js.transitions_from_value (deserialize_lamports json) transitions ≡ ok backing
  pub sized : All IsSized backing
  pub confirmed : verify_slot_delta b att (map same_transition backing) ≡ ok tt

-- The binding returns `null` exactly if both arguments decode, the owner and the key of every account
-- have 32 bytes, and `verify_slot_delta` accepts the attestation for the transitions with the same
-- accounts.
pub verify_slot_delta_js-IsConfirmed_iff :
    (b : Blake3) (json : SerdeJson) (js : Bindgen json) (attestation transitions : js.JsValue)
    → (verify_slot_delta_js b json js attestation transitions ≡ ok tt)
      ↔ IsConfirmed b json js attestation transitions
unfolding verify_slot_delta_js
verify_slot_delta_js-IsConfirmed_iff b json js attestation transitions = (
  λ h.
      let (att, ea, ha) =
        >>=-eq-ok (map_err attestation_parse (js.attestation_from_value attestation)) _ h in
      let (backing, eb, hb) =
        >>=-eq-ok
          (map_err transitions_parse
            (js.transitions_from_value (deserialize_lamports json) transitions))
          _ ha in
      let (ts, et, ht) = >>=-eq-ok (convert backing) _ hb in
      let sized = convert_inv backing ts et in
      let same : map same_transition backing ≡ ts =
        ok_injective (sym (convert_ok backing sized) ∙ et) in
      record {
        att = att;
        backing = backing;
        attestation_parsed =
            map_err_inv attestation_parse (js.attestation_from_value attestation) ea;
        transitions_parsed =
            map_err_inv transitions_parse
              (js.transitions_from_value (deserialize_lamports json) transitions) eb;
        sized = sized;
        confirmed =
            ap (verify_slot_delta b att) same
            ∙ map_err_inv verdict_error (verify_slot_delta b att ts) ht;
      },
  λ c.
      rw (c.attestation_parsed, c.transitions_parsed, convert_ok c.backing c.sized, c.confirmed)
        refl,
)
  where
    ok_injective : {F A : Type 0} {x y : A} → ◌≡◌ {A = Outcome F A} (ok x) (ok y) → x ≡ y
    ok_injective h = cc
