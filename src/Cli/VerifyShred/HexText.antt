-- ===== src/Cli/VerifyShred/HexText.antt =====
-- A file of hexadecimal digits, laid out in any way, is read as the bytes that it spells.
use lattica.Prelude.{
  ℕ, ◌+◌, ◌-◌, ◌/◌, ◌%◌, ◌<◌, Bool, true, false, ◌&&◌, ◌||◌, Option, some, [], ◌∷◌, ltb,
  if◌then◌else◌, All, ◌≡◌, refl, ap, arith,
}
use lattica.Prelude.Bytes.{Bytes, IsByte}
use lattica.Prelude.Outcome.{◌>>=◌}
use lattica.Shred.Merkle.{Sha256}
use lattica.Shred.Verify.{Ed25519, verify_shred}
use lattica.Cli.VerifyShred.{
  is_ascii_hexdigit, is_ascii_whitespace, is_hex_text, without_whitespace, pubkey_from_b58,
  shred_of_file, report_of, cmd_verify_shred,
}

-- A digit below 16, in lower case, and the two digits of each byte.
abbrev pub hex_digit : ℕ → ℕ
hex_digit d = if ltb d 10 then b'0' + d else b'a' + (d - 10)

abbrev pub hex_of : Bytes → Bytes
hex_of [] = []
hex_of (b ∷ bs) = hex_digit (b / 16) ∷ hex_digit (b % 16) ∷ hex_of bs

-- The text is the digits with whitespace anywhere between them.
pub data IsSpaced : Bytes → Bytes → Type 0 where
  end : IsSpaced [] []
  space :
      {text digits : Bytes} (w : ℕ)
      → is_ascii_whitespace w ≡ true
      → IsSpaced text digits
      → IsSpaced (w ∷ text) digits
  digit : {text digits : Bytes} (d : ℕ) → IsSpaced text digits → IsSpaced (d ∷ text) (d ∷ digits)

record IsDigit (d : ℕ) : Type 0 where
  hex : is_ascii_hexdigit d ≡ true
  visible : is_ascii_whitespace d ≡ false

hex_digit-IsDigit : (d : ℕ) → d < 16 → IsDigit (hex_digit d)
unfolding is_ascii_hexdigit is_ascii_whitespace
hex_digit-IsDigit d h = ground arith

hex_of-IsDigit : (bs : Bytes) → All IsByte bs → All IsDigit (hex_of bs)
hex_of-IsDigit [] h = tt
hex_of-IsDigit (b ∷ bs) h = (
  hex_digit-IsDigit (b / 16) (omega (arith, h.0)),
  (hex_digit-IsDigit (b % 16) (omega arith), hex_of-IsDigit bs h.1),
)

or_true : (b : Bool) → ((b || true) && true) ≡ true
or_true true = refl
or_true false = refl

spaced_lem :
    {text digits : Bytes}
    → IsSpaced text digits
    → All IsDigit digits
    → (is_hex_text text ≡ true) × (without_whitespace text ≡ digits)
unfolding is_hex_text without_whitespace
spaced_lem end h = (refl, refl)
spaced_lem (space w e s) h =
    let (all, cleaned) = spaced_lem s h in
    (rw (e, all) (or_true (is_ascii_hexdigit w)), rw e cleaned)
spaced_lem (digit d s) h =
    let (all, cleaned) = spaced_lem s h.1 in
    (rw h.0.hex all, rw h.0.visible (ap (λ t. d ∷ t) cleaned))

-- On a file of hexadecimal digits with whitespace anywhere between them, which the `hex` crate decodes
-- once the whitespace is gone, the command reports what `verify_shred` says of the bytes that the
-- digits spell, under the key that is given.
pub cmd_verify_shred-hex :
    (c : Bool) (sha : Sha256) (ed : Ed25519) (hex_decode b58 : Bytes → Option Bytes)
    (leader_b58 raw : Bytes) {text : Bytes}
    → All IsByte raw
    → hex_decode (hex_of raw) ≡ some raw
    → IsSpaced text (hex_of raw)
    → cmd_verify_shred c sha ed hex_decode b58 (some text) leader_b58
      ≡ (pubkey_from_b58 b58 leader_b58 >>= λ leader. report_of (verify_shred c sha ed raw leader))
unfolding cmd_verify_shred shred_of_file
cmd_verify_shred-hex c sha ed hex_decode b58 leader_b58 raw bytes decodes spaced =
    let (all, cleaned) = spaced_lem spaced (hex_of-IsDigit raw bytes) in
    rw (all, cleaned, decodes) refl
