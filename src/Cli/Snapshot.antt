-- ===== src/Cli/Snapshot.antt =====
-- `fetch_snapshot`, `fetch_current_slot` and `cmd_hash_account` of crates/cli/src/main.rs.
--
-- serde_json's values with their accessors, Base58 and Base64 are parameters, and the node's answer
-- is an argument. Of the output of `hash-account` the two hashes are kept.
use lattica.Prelude.{
  ℕ, Bool, true, false, Option, none, some, List, [], ◌∷◌, if◌then◌else◌, get_elem?, take,
}
use lattica.Prelude.Bytes.{Bytes}
use lattica.Prelude.Outcome.{Outcome, ok, err, panic, ◌>>=◌}
use lattica.Prelude.Machine.{ascii}
use lattica.Prelude.Json.{Json, Failure}
use lattica.LtHash.{
  LtHash, Blake3, AccountForHash, identity, mix_in, mix_out, is_identity, checksum, hash_account,
}
use lattica.Cli.Attest.{AccountSnapshot}
use lattica.Cli.VerifyShred.{or_panic, pubkey_from_b58}
pub mod Fetched

pub data SnapshotError : Type 0 where
  call_failed : Failure → SnapshotError
  rpc_error : SnapshotError
  account_not_found : SnapshotError
  missing_slot : SnapshotError
  missing_lamports : SnapshotError
  missing_owner : SnapshotError
  missing_executable : SnapshotError
  data_not_array : SnapshotError
  data_not_str : SnapshotError
  data_base64 : SnapshotError

-- `ok_or`
abbrev pub ok_or {ℓ} : {A : Type ℓ} → Option A → SnapshotError → Outcome SnapshotError A
ok_or none e = err e
ok_or (some a) e = ok a

-- A step that can only panic.
abbrev pub or_die {ℓ κ} : {E : Type ℓ} {A : Type κ} → Outcome ⊥ A → Outcome E A
or_die (ok a) = ok a
or_die (err e) = elim e [ ]
or_die panic = panic

abbrev pub answered {ℓ} : {V : Type ℓ} → Outcome Failure V → Outcome SnapshotError V
answered (ok v) = ok v
answered (err e) = err (call_failed e)
answered panic = panic

-- The answer is an error.
abbrev pub no_error {ℓ} : {V : Type ℓ} → Option V → V → Outcome SnapshotError V
no_error none resp = ok resp
no_error (some e) resp = err rpc_error

-- `&resp["result"]`, of an answer that is no error.
unfoldable pub result_of : (j : Json) → Outcome Failure j.Value → Outcome SnapshotError j.Value
result_of j response = do
  resp ← answered response
  resp ← no_error (j.get resp (ascii "error")) resp
  ok (j.field resp (ascii "result"))

-- From the account's value on; the first element of `data` is read by index.
unfoldable pub read_snapshot :
    (j : Json)
    → (Bytes → Option Bytes)
    → (Bytes → Option Bytes)
    → Bytes
    → ℕ
    → j.Value
    → Outcome SnapshotError AccountSnapshot
read_snapshot j b58 b64 pubkey_str slot value = do
  lamports ← ok_or (j.as_u64 (j.field value (ascii "lamports"))) missing_lamports
  owner_b58 ← ok_or (j.as_str (j.field value (ascii "owner"))) missing_owner
  executable ← ok_or (j.as_bool (j.field value (ascii "executable"))) missing_executable
  data_arr ← ok_or (j.as_array (j.field value (ascii "data"))) data_not_array
  first ← or_panic (get_elem? data_arr 0)
  data_b64 ← ok_or (j.as_str first) data_not_str
  bytes ← ok_or (b64 data_b64) data_base64
  owner ← or_die (pubkey_from_b58 b58 owner_b58)
  pubkey ← or_die (pubkey_from_b58 b58 pubkey_str)
  ok (record {
    slot = slot;
    lamports = lamports;
    snapshot_data = bytes;
    executable = executable;
    owner = owner;
    pubkey = pubkey;
  })

unfoldable pub fetch_snapshot :
    (j : Json)
    → (Bytes → Option Bytes)
    → (Bytes → Option Bytes)
    → Outcome Failure j.Value
    → Bytes
    → Outcome SnapshotError AccountSnapshot
fetch_snapshot j b58 b64 response pubkey_str = do
  result ← result_of j response
  slot ← ok_or (j.as_u64 (j.field (j.field result (ascii "context")) (ascii "slot"))) missing_slot
  let value = j.field result (ascii "value")
  if j.is_null value then err account_not_found else read_snapshot j b58 b64 pubkey_str slot value

unfoldable pub fetch_current_slot : (j : Json) → Outcome Failure j.Value → Outcome SnapshotError ℕ
fetch_current_slot j response = do
  resp ← answered response
  ok_or (j.as_u64 (j.field resp (ascii "result"))) missing_slot

-- What `hash-account` prints of the account, the hash's first limbs and its checksum; `not_found` is
-- its failure.
pub data HashReport : Type 0 where
  not_found : HashReport
  hashed : AccountForHash → List ℕ → Bytes → HashReport

-- From the account on. The demonstration at the end mixes the hash in and out again and asserts that
-- nothing is left.
unfoldable pub report_hash : Blake3 → AccountForHash → Outcome ⊥ HashReport
report_hash b acct =
    let h = hash_account b acct in
    if is_identity (mix_out (mix_in identity h) h)
    then ok (hashed acct (take 8 h.limbs) (checksum b h))
    else panic

-- `result` is what `rpc` returns; every accessor is followed by `expect`.
unfoldable pub cmd_hash_account :
    Blake3
    → (j : Json) → (Bytes → Option Bytes)
    → (Bytes → Option Bytes)
    → j.Value
    → Bytes
    → Outcome ⊥ HashReport
cmd_hash_account b j b58 b64 result pubkey_str =
    let value = j.field result (ascii "value") in
    if j.is_null value then ok not_found else do
      lamports ← or_panic (j.as_u64 (j.field value (ascii "lamports")))
      owner_b58 ← or_panic (j.as_str (j.field value (ascii "owner")))
      executable ← or_panic (j.as_bool (j.field value (ascii "executable")))
      data_arr ← or_panic (j.as_array (j.field value (ascii "data")))
      first ← or_panic (get_elem? data_arr 0)
      data_b64 ← or_panic (j.as_str first)
      bytes ← or_panic (b64 data_b64)
      owner ← pubkey_from_b58 b58 owner_b58
      pubkey ← pubkey_from_b58 b58 pubkey_str
      report_hash b (record {
        lamports = lamports;
        account_data = bytes;
        executable = executable;
        owner = owner;
        pubkey = pubkey;
      })
