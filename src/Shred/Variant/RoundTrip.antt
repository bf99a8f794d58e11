-- ===== src/Shred/Variant/RoundTrip.antt =====
-- The variant byte and the variant determine one another.
use lattica.Prelude.{
  ℕ, ◌+◌, ◌*◌, ◌/◌, ◌%◌, ◌<◌, bit_or, bit_and, ◌≢◌, ◌∙◌, Bool, true, false, ◌≡◌, refl, ◌⊎◌, inl,
  inr, arith,
}
use native.Mathlib.Decide.{ℕ_discrete}
use lattica.Prelude.Bits.{
  low_nibble, high_nibble, or_nibble_60, or_nibble_70, or_nibble_90, or_nibble_b0,
}
use lattica.Prelude.Outcome.{ok, err}
use lattica.Shred.Variant.{
  unknown_variant, ShredKind, data_shred, code_shred, ShredVariant, decode, encode, high_bits,
}

-- What `encode` can write without loss: a chained variant whose proof size fits the low four bits.
pub record IsVariant (v : ShredVariant) : Type 0 where
  pub small : v.proof_size < 16
  pub is_chained : v.chained ≡ true

encode_as_sum :
    (v : ShredVariant) → v.proof_size < 16 → encode v ≡ high_bits v.kind v.resigned + v.proof_size
unfolding encode
encode_as_sum v h = go v.kind v.resigned
  where
    go :
        (k : ShredKind) (r : Bool)
        → bit_or (high_bits k r) (bit_and v.proof_size 0x0f) ≡ high_bits k r + v.proof_size
    go code_shred false = ground (arith, low_nibble v.proof_size, or_nibble_60 v.proof_size)
    go code_shred true = ground (arith, low_nibble v.proof_size, or_nibble_70 v.proof_size)
    go data_shred false = ground (arith, low_nibble v.proof_size, or_nibble_90 v.proof_size)
    go data_shred true = ground (arith, low_nibble v.proof_size, or_nibble_b0 v.proof_size)

high_bits-decode :
    (k : ShredKind) (r : Bool) (n : ℕ)
    → n < 16
    → decode (high_bits k r + n)
      ≡ ok (record { kind = k; proof_size = n; chained = true; resigned = r })
unfolding decode
high_bits-decode code_shred false n h =
    ground (arith, low_nibble (0x60 + n), high_nibble (0x60 + n))
high_bits-decode code_shred true n h = ground (arith, low_nibble (0x70 + n), high_nibble (0x70 + n))
high_bits-decode data_shred false n h =
    ground (arith, low_nibble (0x90 + n), high_nibble (0x90 + n))
high_bits-decode data_shred true n h = ground (arith, low_nibble (0xb0 + n), high_nibble (0xb0 + n))

-- Every variant that `encode` can write is decoded from its byte.
pub decode-encode : (v : ShredVariant) → IsVariant v → decode (encode v) ≡ ok v
decode-encode v h =
    rw (encode_as_sum v h.small, high_bits-decode v.kind v.resigned v.proof_size h.small)
      (ground (arith, h.is_chained))

known_byte :
    (k : ShredKind) (r : Bool) (b : ℕ)
    → b / 16 * 16 ≡ high_bits k r
    → (v : ShredVariant) × (decode b ≡ ok v) × (encode v ≡ b) × IsVariant v
known_byte k r b e =
    let v : ShredVariant = record { kind = k; proof_size = b % 16; chained = true; resigned = r } in
    let whole : high_bits k r + b % 16 ≡ b = omega arith in
    (
      v,
      rw whole at (high_bits-decode k r (b % 16) (omega arith)),
      encode_as_sum v (omega arith) ∙ whole,
      record { small = omega arith; is_chained = refl },
    )

unknown_byte :
    (b : ℕ)
    → b < 256
    → b / 16 ≢ 6
    → b / 16 ≢ 7
    → b / 16 ≢ 9
    → b / 16 ≢ 11
    → decode b ≡ err (unknown_variant b)
unfolding decode
unknown_byte b h n6 n7 n9 n11 = ground (arith, high_nibble b)

-- A byte that is decoded is the encoding of its variant, which `encode` can write; a byte that is
-- not is reported as unknown, and its high four bits are none of the four chained kinds.
pub decode_cases :
    (b : ℕ)
    → b < 256
    → ((v : ShredVariant) × (decode b ≡ ok v) × (encode v ≡ b) × IsVariant v)
      ⊎ ((decode b ≡ err (unknown_variant b))
          × (b / 16 ≢ 6)
          × (b / 16 ≢ 7)
          × (b / 16 ≢ 9)
          × (b / 16 ≢ 11))
decode_cases b h = elim (ℕ_discrete (b / 16) 6) [
  | yes e ↦ inl (known_byte code_shred false b (omega arith))
  | no n6 ↦ elim (ℕ_discrete (b / 16) 7) [
    | yes e ↦ inl (known_byte code_shred true b (omega arith))
    | no n7 ↦ elim (ℕ_discrete (b / 16) 9) [
      | yes e ↦ inl (known_byte data_shred false b (omega arith))
      | no n9 ↦ elim (ℕ_discrete (b / 16) 11) [
        | yes e ↦ inl (known_byte data_shred true b (omega arith))
        | no n11 ↦ inr (unknown_byte b h n6 n7 n9 n11, n6, n7, n9, n11)
      ]
    ]
  ]
]
