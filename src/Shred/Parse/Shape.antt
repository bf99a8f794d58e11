-- ===== src/Shred/Parse/Shape.antt =====
-- `parse_shred` on any byte string: which of its guards can fail, and what it reads where.
use lattica.Prelude.{
  ℕ, zero, suc, ◌+◌, ◌-◌, ◌*◌, ◌<◌, ◌≤◌, Bool, true, false, Option, none, some, [], ◌∷◌, length,
  All, ltb, if◌then◌else◌, get_or, get_elem?-eq-get_or, take, drop, ◌≡◌, refl, inl, inr, Bool-cases,
  arith, le→leb, ltb-false, le→ltb_false,
}
use lattica.Prelude.Bytes.{Bytes, IsByte, from_le_bytes}
use lattica.Prelude.Outcome.{Outcome, ok, err, panic, ◌>>=◌, slice_lem}
use lattica.Shred.Variant.{
  ShredError, payload_too_small, ShredKind, data_shred, code_shred, ShredVariant, decode,
  size_of_proof_entry, data_shreds_per_fec,
}
use lattica.Shred.Variant.RoundTrip.{IsVariant, decode_cases}
use lattica.Shred.Parse.{
  CommonHeader, ParsedShred, sub_unsigned, byte_at, read_le, parse_header, expected_len, resign_len,
  read_chained_root, read_erasure_index, read_flags, parse_tail, parse_shred,
}

-- The bytes from `a` up to `b`, the integer that they stand for, and the byte at `i`.
abbrev pub field : Bytes → ℕ → ℕ → Bytes
field raw a b = take (b - a) (drop a raw)

abbrev pub number : Bytes → ℕ → ℕ → ℕ
number raw a b = from_le_bytes (field raw a b)

abbrev pub byte : Bytes → ℕ → ℕ
byte raw i = get_or raw i 0

abbrev pub header_of : Bytes → ShredVariant → CommonHeader
header_of raw v = record {
  signature = field raw 0 64;
  variant = v;
  slot = number raw 65 73;
  index = number raw 73 77;
  version = number raw 77 79;
  fec_set_index = number raw 79 83;
}

abbrev pub proof_end : ShredVariant → ℕ
proof_end v = expected_len v.kind - resign_len v.resigned

abbrev pub proof_start : ShredVariant → ℕ
proof_start v = proof_end v - v.proof_size * size_of_proof_entry

abbrev pub flags_of : ShredKind → Bytes → Option ℕ
flags_of data_shred raw = some (byte raw 85)
flags_of code_shred raw = none

abbrev pub parsed : Bytes → ShredVariant → ℕ → ParsedShred
parsed raw v e = record {
  raw = raw;
  header = header_of raw v;
  leaf_range = record { start = 64; end = proof_start v };
  proof_range = record { start = proof_start v; end = proof_end v };
  chained_root = some (field raw (proof_start v - 32) (proof_start v));
  erasure_shard_index = e;
  data_flags = flags_of v.kind raw;
}

-- The difference of the two indices for a data shred, and 32 plus the position for a coding shred.
abbrev pub erasure_index : Bool → Bytes → ShredKind → Outcome ShredError ℕ
erasure_index overflow_checks raw data_shred =
    sub_unsigned overflow_checks 32 (number raw 73 77) (number raw 79 83)
erasure_index overflow_checks raw code_shred = ok (data_shreds_per_fec + number raw 87 89)

pub sub_unsigned_lem : (c : Bool) (w a b : ℕ) → b ≤ a → sub_unsigned c w a b ≡ ok (a - b)
unfolding sub_unsigned
sub_unsigned_lem c w a b h = rw (le→leb b a h) refl

byte_at_lem : (raw : Bytes) (i : ℕ) → i < length raw → byte_at raw i ≡ ok (byte raw i)
unfolding byte_at
byte_at_lem raw i h = rw (byte_at, get_elem?-eq-get_or raw i 0 h) refl

read_le_lem :
    (raw : Bytes) (a b : ℕ) → a ≤ b → b ≤ length raw → read_le raw a b ≡ ok (number raw a b)
unfolding read_le
read_le_lem raw a b h k = rw (slice_lem raw a b h k) refl

parse_header_lem :
    (raw : Bytes)
    → 83 ≤ length raw
    → parse_header raw ≡ (decode (byte raw 64) >>= λ v. ok (header_of raw v))
unfolding parse_header
parse_header_lem raw h =
    rw
      (
        le→ltb_false (length raw) 83 h,
        slice_lem raw 0 64 (omega arith) (omega arith),
        byte_at_lem raw 64 (omega arith),
      )
      (go (decode (byte raw 64)))
  where
    go :
        (d : Outcome ShredError ShredVariant)
        → (d >>= λ variant. read_le raw 65 73 >>= λ slot. read_le raw 73 77 >>= λ index.
            read_le raw 77 79 >>= λ version. read_le raw 79 83 >>= λ fec_set_index. ok (record {
              signature = field raw 0 64;
              variant = variant;
              slot = slot;
              index = index;
              version = version;
              fec_set_index = fec_set_index;
            }))
          ≡ (d >>= λ v. ok (header_of raw v))
    go (ok v) =
        rw
          (
            read_le_lem raw 65 73 (omega arith) (omega arith),
            read_le_lem raw 73 77 (omega arith) (omega arith),
            read_le_lem raw 77 79 (omega arith) (omega arith),
            read_le_lem raw 79 83 (omega arith) (omega arith),
          )
          refl
    go (err e) = refl
    go panic = refl

parse_header_short :
    (raw : Bytes)
    → ltb (length raw) 83 ≡ true
    → parse_header raw ≡ err (payload_too_small (length raw))
unfolding parse_header
parse_header_short raw h = rw h refl

-- A variant that `decode` returns leaves room for the proof, the second signature and the root.
pub proof_fits : (v : ShredVariant) → IsVariant v → 620 ≤ proof_start v
proof_fits v h = go v.kind v.resigned
  where
    go :
        (k : ShredKind) (r : Bool)
        → 620 ≤ expected_len k - resign_len r - v.proof_size * size_of_proof_entry
    go data_shred false = omega (arith, h.small)
    go data_shred true = omega (arith, h.small)
    go code_shred false = omega (arith, h.small)
    go code_shred true = omega (arith, h.small)

read_chained_root_lem :
    (c : Bool) (raw : Bytes) (chained : Bool) (start : ℕ)
    → chained ≡ true
    → 32 ≤ start
    → start ≤ length raw
    → read_chained_root c raw chained start ≡ ok (some (field raw (start - 32) start))
unfolding read_chained_root
read_chained_root_lem c raw false start h lo hi = cc
read_chained_root_lem c raw true start h lo hi =
    rw (sub_unsigned_lem c 64 start 32 lo, slice_lem raw (start - 32) start (omega arith) hi) refl

read_erasure_index_lem :
    (c : Bool) (raw : Bytes) (k : ShredKind)
    → expected_len k ≤ length raw
    → read_erasure_index c raw k (number raw 73 77) (number raw 79 83) ≡ erasure_index c raw k
unfolding read_erasure_index
read_erasure_index_lem c raw data_shred h = refl
read_erasure_index_lem c raw code_shred h =
    rw (read_le_lem raw 87 89 (omega arith) (omega arith)) refl

read_flags_lem :
    (raw : Bytes) (k : ShredKind)
    → expected_len k ≤ length raw
    → read_flags raw k ≡ ok (flags_of k raw)
unfolding read_flags
read_flags_lem raw data_shred h = rw (byte_at_lem raw 85 (omega arith)) refl
read_flags_lem raw code_shred h = refl

parse_tail_lem :
    (c : Bool) (raw : Bytes) (v : ShredVariant)
    → IsVariant v
    → expected_len v.kind ≤ length raw
    → parse_tail c raw (header_of raw v) (v.proof_size * 20) (resign_len v.resigned)
      ≡ (erasure_index c raw v.kind >>= λ e. ok (parsed raw v e))
unfolding parse_tail
parse_tail_lem c raw v h len =
    let room = proof_fits v h in
    rw
      (
        sub_unsigned_lem c 64 (expected_len v.kind) (resign_len v.resigned) (omega arith),
        sub_unsigned_lem c 64 (proof_end v) (v.proof_size * 20) (omega arith),
        read_chained_root_lem c raw v.chained (proof_start v) h.is_chained (omega arith)
            (omega arith),
        read_erasure_index_lem c raw v.kind len,
        read_flags_lem raw v.kind len,
      )
      refl

-- The guard on the proof size lets every variant through that `decode` returns.
proof_guard :
    (v : ShredVariant)
    → IsVariant v
    → ltb (expected_len v.kind) (v.proof_size * 20 + resign_len v.resigned + 64) ≡ false
proof_guard v h = let room = proof_fits v h in le→ltb_false _ _ (omega arith)

pub byte-IsByte : (raw : Bytes) (i : ℕ) → All IsByte raw → byte raw i < 256
byte-IsByte [] i h = omega arith
byte-IsByte (x ∷ raw) zero h = h.0
byte-IsByte (x ∷ raw) (suc i) h = byte-IsByte raw i h.1

-- `parse_shred`, where byte 64 is a byte, as a chain of three tests. No read is out of range, and the guard on
-- the proof size never fails.
pub parse_shred_shape :
    (c : Bool) (raw : Bytes)
    → byte raw 64 < 256
    → parse_shred c raw ≡ (
        if ltb (length raw) 83
        then err (payload_too_small (length raw))
        else decode (byte raw 64) >>= λ v.
            if ltb (length raw) (expected_len v.kind)
            then err (payload_too_small (length raw))
            else erasure_index c raw v.kind >>= λ e. ok (parsed raw v e))
unfolding parse_shred
parse_shred_shape c raw tag_byte = elim (Bool-cases (ltb (length raw) 83)) [
  | inl short ↦ rw (short, parse_header_short raw short) refl
  | inr long ↦
      rw (long, parse_header_lem raw (ltb-false _ _ long))
        (elim (decode_cases (byte raw 64) tag_byte) [
          | inr unknown ↦ rw unknown.0 refl
          | inl (v, known, _, variant) ↦
              elim (Bool-cases (ltb (length raw) (expected_len v.kind))) [
                | inl short ↦ rw (known, short) refl
                | inr fits ↦
                    rw
                      (
                        known,
                        fits,
                        proof_guard v variant,
                        parse_tail_lem c raw v variant (ltb-false _ _ fits),
                      )
                      refl
              ]
        ])
]
