-- ===== src/Cli/Snapshot/Fetched.antt =====
-- What a snapshot that is fetched is, and that `hash-account` reports what the library computes.
use lattica.Prelude.{
  ℕ, ◌^◌, ◌<◌, Bool, true, false, Option, none, some, List, ◌==◌, ==_iff, if◌then◌else◌, get_elem?,
  length, take, ◌≡◌, refl, sym, ap, subst, ◌∙◌, Bool-cases, Option-cases, inl, inr,
}
use lattica.Prelude.Bytes.{Bytes}
use lattica.Prelude.Outcome.{Outcome, ok, err, panic, >>=-eq-ok}
use lattica.Prelude.Machine.{ascii}
use lattica.LtHash.{
  Blake3, IsBlake3, AccountForHash, IsAccount, identity, mix_in, mix_out, is_identity, checksum,
  hash_account,
}
use lattica.LtHash.Group.{mix_inverse, is_identity_iff, identity-IsLtHash}
use lattica.LtHash.Encoding.{hash_account-IsLtHash}
use lattica.Cli.Attest.{AccountSnapshot, as_for_hash}
use lattica.Cli.VerifyShred.{or_panic, pubkey_from_b58}
use lattica.Prelude.Json.{Json, Failure}
use lattica.Cli.Snapshot.{
  SnapshotError, account_not_found, answered, no_error, ok_or, or_die, read_snapshot,
  fetch_snapshot, hashed, report_hash, result_of,
}

pubkey_from_b58-32 :
    (b58 : Bytes → Option Bytes) (s key : Bytes)
    → or_die {E = SnapshotError} (pubkey_from_b58 b58 s) ≡ ok key
    → (b58 s ≡ some key) × (length key ≡ 32)
unfolding pubkey_from_b58
pubkey_from_b58-32 b58 s key h = elim (Option-cases (b58 s)) [
  | inl e ↦ cc (rw e at h)
  | inr (v, e) ↦ elim (Bool-cases (length v == 32)) [
    | inr k ↦ cc (rw (e, k) at h)
    | inl k ↦
        let here : ◌≡◌ {A = Outcome SnapshotError Bytes} (ok v) (ok key) = rw (e, k) at h in
        let same : v ≡ key = cc in
        (e ∙ ap some same, ap length (sym same) ∙ (==_iff (length v) 32).0 k)
  ]
]

ok_or-some : {A : Type 0} (o : Option A) (e : SnapshotError) (a : A) → ok_or o e ≡ ok a → o ≡ some a
ok_or-some none e a h = cc
ok_or-some (some b) e a h = let same : b ≡ a = cc in ap some same

-- `hash-account`'s assertion holds: mixing the hash of an account in and out again leaves the
-- identity, so that the command reports the account, the first limbs and the checksum.
pub report_hash_lem :
    (b : Blake3) (acct : AccountForHash)
    → IsBlake3 b
    → report_hash b acct
      ≡ ok (hashed acct (take 8 (hash_account b acct).limbs) (checksum b (hash_account b acct)))
unfolding report_hash
report_hash_lem b acct laws =
    let h = hash_account b acct in
    let v = hash_account-IsLtHash b acct laws in
    let (undone, _) = mix_inverse identity h identity-IsLtHash v in
    let left : is_identity (mix_out (mix_in identity h) h) ≡ true =
      ap is_identity undone ∙ (is_identity_iff identity identity-IsLtHash).1 refl in
    rw (report_hash, left) refl

-- The snapshot has the fields that the node's answer names, and keys of 32 bytes.
pub record IsSnapshotOf (j : Json) (b58 b64 : Bytes → Option Bytes) (pubkey_str : Bytes)
    (value : j.Value) (s : AccountSnapshot) : Type 0 where
  pub lamports : j.as_u64 (j.field value (ascii "lamports")) ≡ some s.lamports
  pub executable : j.as_bool (j.field value (ascii "executable")) ≡ some s.executable
  pub owner_text : Bytes
  pub owner_field : j.as_str (j.field value (ascii "owner")) ≡ some owner_text
  pub owner : b58 owner_text ≡ some s.owner
  pub length-owner : length s.owner ≡ 32
  pub pubkey : b58 pubkey_str ≡ some s.pubkey
  pub length-pubkey : length s.pubkey ≡ 32
  pub parts : List j.Value
  pub data_field : j.as_array (j.field value (ascii "data")) ≡ some parts
  pub first : j.Value
  pub first_part : get_elem? parts 0 ≡ some first
  pub data_text : Bytes
  pub first_text : j.as_str first ≡ some data_text
  pub decoded : b64 data_text ≡ some s.snapshot_data

ok_inj : {A : Type 0} (x y : A) → ◌≡◌ {A = Outcome SnapshotError A} (ok x) (ok y) → x ≡ y
ok_inj x y h = cc

-- Where a snapshot is read the value is there.
if_null :
    (missing : Bool) (m : Outcome SnapshotError AccountSnapshot) (s : AccountSnapshot)
    → (if missing then err account_not_found else m) ≡ ok s
    → (missing ≡ false) × (m ≡ ok s)
if_null true m s h = cc
if_null false m s h = (refl, h)

-- The node's value, which is no error, and the result in it.
pub record IsResult (j : Json) (response : Outcome Failure j.Value) (result : j.Value)
    : Type 0 where
  pub resp : j.Value
  pub answer : response ≡ ok resp
  pub no_error_field : j.get resp (ascii "error") ≡ none
  pub result_field : j.field resp (ascii "result") ≡ result

answered-ok : {V : Type 0} (m : Outcome Failure V) (v : V) → answered m ≡ ok v → m ≡ ok v
answered-ok (ok w) v h = let same : w ≡ v = cc in ap ok same
answered-ok (err e) v h = cc
answered-ok panic v h = cc

no_error-ok : {V : Type 0} (o : Option V) (v w : V) → no_error o v ≡ ok w → (o ≡ none) × (v ≡ w)
no_error-ok none v w h = (refl, cc)
no_error-ok (some e) v w h = cc

result_of-IsResult :
    (j : Json) (response : Outcome Failure j.Value) (result : j.Value)
    → result_of j response ≡ ok result
    → IsResult j response result
unfolding result_of
result_of-IsResult j response result h =
    let (resp, e1, h1) = >>=-eq-ok (answered response) _ h in
    let (clean, e2, h2) = >>=-eq-ok (no_error (j.get resp (ascii "error")) resp) _ h1 in
    let (absent, same) = no_error-ok (j.get resp (ascii "error")) resp clean e2 in
    record {
      resp = resp;
      answer = answered-ok response resp e1;
      no_error_field = absent;
      result_field =
          ap (λ v. j.field v (ascii "result")) same
          ∙ ok_inj (j.field clean (ascii "result")) result h2;
    }

or_panic-some :
    {A : Type 0} (o : Option A) (a : A) → or_panic {E = SnapshotError} o ≡ ok a → o ≡ some a
or_panic-some none a h = cc
or_panic-some (some b) a h = let same : b ≡ a = cc in ap some same

module _ (j : Json) (b58 b64 : Bytes → Option Bytes) (pubkey_str : Bytes) where
  read_snapshot-IsSnapshotOf :
      (slot : ℕ) (value : j.Value) (s : AccountSnapshot)
      → read_snapshot j b58 b64 pubkey_str slot value ≡ ok s
      → IsSnapshotOf j b58 b64 pubkey_str value s × (s.slot ≡ slot)
  unfolding read_snapshot
  read_snapshot-IsSnapshotOf slot value s h =
      let (lamports, e1, h1) =
        >>=-eq-ok (ok_or (j.as_u64 (j.field value (ascii "lamports"))) _) _ h in
      let (owner_text, e2, h2) =
        >>=-eq-ok (ok_or (j.as_str (j.field value (ascii "owner"))) _) _ h1 in
      let (executable, e3, h3) =
        >>=-eq-ok (ok_or (j.as_bool (j.field value (ascii "executable"))) _) _ h2 in
      let (parts, e4, h4) = >>=-eq-ok (ok_or (j.as_array (j.field value (ascii "data"))) _) _ h3 in
      let (first, e5, h5) = >>=-eq-ok (or_panic (get_elem? parts 0)) _ h4 in
      let (text, e6, h6) = >>=-eq-ok (ok_or (j.as_str first) _) _ h5 in
      let (bytes, e7, h7) = >>=-eq-ok (ok_or (b64 text) _) _ h6 in
      let (owner, e8, h8) = >>=-eq-ok (or_die (pubkey_from_b58 b58 owner_text)) _ h7 in
      let (pubkey, e9, h9) = >>=-eq-ok (or_die (pubkey_from_b58 b58 pubkey_str)) _ h8 in
      let (owner_is, owner_len) = pubkey_from_b58-32 b58 owner_text owner e8 in
      let (pubkey_is, pubkey_len) = pubkey_from_b58-32 b58 pubkey_str pubkey e9 in
      let built : AccountSnapshot = record {
        slot = slot;
        lamports = lamports;
        snapshot_data = bytes;
        executable = executable;
        owner = owner;
        pubkey = pubkey;
      } in
      let same : built ≡ s = ok_inj built s h9 in
      subst (λ (t : AccountSnapshot). IsSnapshotOf j b58 b64 pubkey_str value t × (t.slot ≡ slot))
        same
        (
          record {
            lamports = ok_or-some _ _ lamports e1;
            executable = ok_or-some _ _ executable e3;
            owner_text = owner_text;
            owner_field = ok_or-some _ _ owner_text e2;
            owner = owner_is;
            length-owner = owner_len;
            pubkey = pubkey_is;
            length-pubkey = pubkey_len;
            parts = parts;
            data_field = ok_or-some _ _ parts e4;
            first = first;
            first_part = or_panic-some _ first e5;
            data_text = text;
            first_text = ok_or-some _ _ text e6;
            decoded = ok_or-some _ _ bytes e7;
          },
          refl,
        )

  -- A snapshot that is fetched comes from an answer without an `error` field, and is of a value in its
  -- `result` that is not null. It has the slot of the
  -- answer's context and the fields of that value, its keys have 32 bytes, and, as `as_u64` returns
  -- numbers below 2 ^ 64, what it is hashed as is a proper account.
  pub fetch_snapshot-IsSnapshotOf :
      ((v : j.Value) (n : ℕ) → j.as_u64 v ≡ some n → n < 2 ^ 64)
      → (response : Outcome Failure j.Value) (s : AccountSnapshot)
      → fetch_snapshot j b58 b64 response pubkey_str ≡ ok s
      → (result : j.Value) × IsResult j response result
        × (j.is_null (j.field result (ascii "value")) ≡ false)
        × (j.as_u64 (j.field (j.field result (ascii "context")) (ascii "slot")) ≡ some s.slot)
        × IsSnapshotOf j b58 b64 pubkey_str (j.field result (ascii "value")) s
        × IsAccount (as_for_hash s)
  unfolding fetch_snapshot as_for_hash
  fetch_snapshot-IsSnapshotOf u64 response s h =
      let (result, e1, h1) = >>=-eq-ok (result_of j response) _ h in
      let at = j.field (j.field result (ascii "context")) (ascii "slot") in
      let (slot, e2, h2) = >>=-eq-ok (ok_or (j.as_u64 at) _) _ h1 in
      let value = j.field result (ascii "value") in
      let (there, run) =
        if_null (j.is_null value) (read_snapshot j b58 b64 pubkey_str slot value) s h2 in
      let (z, same) = read_snapshot-IsSnapshotOf slot value s run in
      (
        result,
        result_of-IsResult j response result e1,
        there,
        ok_or-some (j.as_u64 at) _ slot e2 ∙ ap some (sym same),
        z,
        record {
          lamports_u64 = u64 _ s.lamports z.lamports;
          owner_bytes = z.length-owner;
          pubkey_bytes = z.length-pubkey;
        },
      )
