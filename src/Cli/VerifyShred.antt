-- ===== src/Cli/VerifyShred.antt =====
-- `cmd_verify_shred` and `pubkey_from_b58` of crates/cli/src/main.rs.
--
-- The file's bytes, Base58 and the decoder of the `hex` crate are arguments; `none` is an error.
use lattica.Prelude.{
  ℕ, ◌+◌, ◌/◌, ◌%◌, ◌<◌, Bool, true, false, ◌&&◌, ◌||◌, not, Option, none, some, List, [], ◌∷◌, leb,
  ltb, ◌==◌, ltb→lt, ltb-false, if◌then◌else◌, length, All, ◌≡◌, refl, sym, ap, ◌∙◌, Bool-cases,
  inl, inr, arith,
}
use lattica.Prelude.Bytes.{Bytes, IsByte}
use lattica.Prelude.Outcome.{Outcome, ok, err, panic, ◌>>=◌}
use lattica.Prelude.Machine.{ExitCode, success, failure}
use lattica.Shred.Merkle.{Sha256}
use lattica.Shred.Variant.{ShredError}
use lattica.Shred.Verify.{Ed25519, VerifiedShred, verify_shred}
pub mod HexText

unfoldable pub is_ascii_hexdigit : ℕ → Bool
is_ascii_hexdigit b =
    (leb b'0' b && leb b b'9') || ((leb b'a' b && leb b b'f') || (leb b'A' b && leb b b'F'))

-- Space, tab, line feed, form feed and carriage return.
unfoldable pub is_ascii_whitespace : ℕ → Bool
is_ascii_whitespace b = b == 32 || (b == 9 || (b == 10 || (b == 12 || b == 13)))

-- `bytes.iter().all(..)`
unfoldable pub is_hex_text : Bytes → Bool
is_hex_text [] = true
is_hex_text (b ∷ bs) = (is_ascii_hexdigit b || is_ascii_whitespace b) && is_hex_text bs

-- `bytes.iter().filter(..)`
unfoldable pub without_whitespace : Bytes → Bytes
without_whitespace [] = []
without_whitespace (b ∷ bs) =
    let rest = without_whitespace bs in if is_ascii_whitespace b then rest else b ∷ rest

-- `expect` on an `Option`.
abbrev pub or_panic {ℓ κ} : {E : Type ℓ} {A : Type κ} → Option A → Outcome E A
or_panic none = panic
or_panic (some a) = ok a

unfoldable pub pubkey_from_b58 : (Bytes → Option Bytes) → Bytes → Outcome ⊥ Bytes
pubkey_from_b58 b58 s = do v ← or_panic (b58 s); if length v == 32 then ok v else panic

-- The bytes of the shred, from a file of raw bytes or of hexadecimal digits.
unfoldable pub shred_of_file : (Bytes → Option Bytes) → Bytes → Outcome ⊥ Bytes
shred_of_file hex_decode bytes =
    if is_hex_text bytes then or_panic (hex_decode (without_whitespace bytes)) else ok bytes

-- What is printed: the fields of the shred, or the error.
pub data Report : Type 0 where
  accepted : VerifiedShred → Report
  verify_failed : ShredError → Report

unfoldable pub exit_of_report : Report → ExitCode
exit_of_report (accepted v) = success
exit_of_report (verify_failed e) = failure

abbrev pub report_of : Outcome ShredError VerifiedShred → Outcome ⊥ Report
report_of (ok v) = ok (accepted v)
report_of (err e) = ok (verify_failed e)
report_of panic = panic

unfoldable pub cmd_verify_shred :
    Bool
    → Sha256
    → Ed25519
    → (Bytes → Option Bytes)
    → (Bytes → Option Bytes)
    → Option Bytes
    → Bytes
    → Outcome ⊥ Report
cmd_verify_shred overflow_checks sha ed hex_decode b58 file leader_b58 = do
  bytes ← or_panic file
  raw ← shred_of_file hex_decode bytes
  leader ← pubkey_from_b58 b58 leader_b58
  report_of (verify_shred overflow_checks sha ed raw leader)
