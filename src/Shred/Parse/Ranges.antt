-- ===== src/Shred/Parse/Ranges.antt =====
-- What a parsed shred satisfies, and when parsing panics.
use lattica.Prelude.{
  ℕ, ◌+◌, ◌-◌, ◌*◌, ◌%◌, ◌^◌, ◌<◌, ◌≤◌, Bool, true, false, none, some, length, All, ltb, leb, ◌≡◌,
  ◌≢◌, refl, sym, subst, ◌∙◌, ◌↔◌, ◌⊎◌, inl, inr, Bool-cases, arith, ltb-false, le→ltb_false,
  lt→leb_false, leb-false,
}
use lattica.Prelude.Bytes.{Bytes, IsByte}
use lattica.Prelude.Outcome.{Outcome, ok, err, panic, ◌>>=◌}
use lattica.Shred.Variant.{
  payload_too_small, proof_size_overflow, unknown_variant, ShredKind, data_shred, code_shred,
  ShredVariant, decode, data_shreds_per_fec,
}
use lattica.Shred.Variant.RoundTrip.{IsVariant, decode_cases}
use lattica.Shred.Parse.{ParsedShred, sub_unsigned, expected_len, resign_len, parse_shred}
use lattica.Shred.Parse.Shape.{
  field, number, byte, parsed, erasure_index, parse_shred_shape, byte-IsByte, proof_fits,
}

-- `raw` is long enough for its header and for the kind that its variant byte names.
pub record IsWellSized (raw : Bytes) (v : ShredVariant) : Type 0 where
  pub has_header : 83 ≤ length raw
  pub tag : decode (byte raw 64) ≡ ok v
  pub has_payload : expected_len v.kind ≤ length raw

parse_well_sized :
    (c : Bool) (raw : Bytes) (v : ShredVariant)
    → byte raw 64 < 256
    → IsWellSized raw v
    → parse_shred c raw ≡ (erasure_index c raw v.kind >>= λ e. ok (parsed raw v e))
parse_well_sized c raw v tag_byte w =
    parse_shred_shape c raw tag_byte
    ∙ rw
        (
          le→ltb_false (length raw) 83 w.has_header,
          w.tag,
          le→ltb_false (length raw) (expected_len v.kind) w.has_payload,
        )
        refl

-- Parsing ends in an error, or the bytes are well sized.
pub parse_cases :
    (c : Bool) (raw : Bytes)
    → All IsByte raw
    → ((parse_shred c raw ≡ err (payload_too_small (length raw)))
        ⊎ (parse_shred c raw ≡ err (unknown_variant (byte raw 64))))
      ⊎ ((v : ShredVariant) × IsVariant v × IsWellSized raw v)
parse_cases c raw bytes =
    let shape = parse_shred_shape c raw (byte-IsByte raw 64 bytes) in
    elim (Bool-cases (ltb (length raw) 83)) [
      | inl short ↦ inl (inl (shape ∙ rw short refl))
      | inr long ↦ elim (decode_cases (byte raw 64) (byte-IsByte raw 64 bytes)) [
        | inr unknown ↦ inl (inr (shape ∙ rw (long, unknown.0) refl))
        | inl (v, known, _, variant) ↦ elim (Bool-cases (ltb (length raw) (expected_len v.kind))) [
          | inl short ↦ inl (inl (shape ∙ rw (long, known, short) refl))
          | inr fits ↦ inr (
            v,
            variant,
            record {
              has_header = ltb-false _ _ long;
              tag = known;
              has_payload = ltb-false _ _ fits;
            },
          )
        ]
      ]
    ]

-- What `parse_shred` promises of a shred that it returns: the leaf runs from the end of the signature
-- up to the proof, the proof holds `proof_size` entries, and with the second signature it ends where
-- the payload of the kind ends, inside the buffer; the chained root is the 32 bytes before the proof;
-- the flags are there for a data shred alone.
pub record IsParsed (raw : Bytes) (p : ParsedShred) : Type 0 where
  pub same_raw : p.raw ≡ raw
  pub leaf_start : p.leaf_range.start ≡ 64
  pub leaf_end : p.leaf_range.end ≡ p.proof_range.start
  pub leaf_has_root : 64 + 32 ≤ p.leaf_range.end
  pub proof_len : p.proof_range.start + 20 * p.header.variant.proof_size ≡ p.proof_range.end
  pub payload_end :
      p.proof_range.end + resign_len p.header.variant.resigned ≡ expected_len p.header.variant.kind
  pub in_buffer : expected_len p.header.variant.kind ≤ length raw
  pub root_before_proof :
      p.chained_root ≡ some (field raw (p.proof_range.start - 32) p.proof_range.start)
  pub flags_of_data :
      (p.header.variant.kind ≡ data_shred → p.data_flags ≡ some (byte raw 85))
      × (p.header.variant.kind ≡ code_shred → p.data_flags ≡ none)

pub parsed-IsParsed :
    (raw : Bytes) (v : ShredVariant) (e : ℕ)
    → IsVariant v
    → expected_len v.kind ≤ length raw
    → IsParsed raw (parsed raw v e)
parsed-IsParsed raw v e variant fits =
    let room = proof_fits v variant in
    let resign_le : resign_len v.resigned ≤ 64 = resign_len-le v.resigned in
    record {
      same_raw = refl;
      leaf_start = refl;
      leaf_end = refl;
      leaf_has_root = omega arith;
      proof_len = omega arith;
      payload_end = omega arith;
      in_buffer = fits;
      root_before_proof = refl;
      flags_of_data = (λ k. rw k refl, λ k. rw k refl);
    }
  where
    resign_len-le : (r : Bool) → resign_len r ≤ 64
    resign_len-le true = omega arith
    resign_len-le false = omega arith

bind_ok_inv :
    {E A B : Type 0} (m : Outcome E A) (f : A → B) {b : B}
    → (m >>= λ a. ok (f a)) ≡ ok b
    → (a : A) × (f a ≡ b)
bind_ok_inv (ok a) f h = (a, cc)
bind_ok_inv (err e) f h = cc
bind_ok_inv panic f h = cc

-- A shred that is parsed from bytes has its leaf from the end of the signature up to the proof, a
-- proof of `proof_size` entries that ends, with the second signature, where the payload of its kind
-- ends, all inside the buffer; its chained root is the 32 bytes before the proof, and it has flags if
-- it is a data shred and none if it is a coding shred.
pub parse_shred-IsParsed :
    (c : Bool) (raw : Bytes) (p : ParsedShred)
    → All IsByte raw
    → parse_shred c raw ≡ ok p
    → IsParsed raw p
parse_shred-IsParsed c raw p bytes h = elim (parse_cases c raw bytes) [
  | inl (inl e) ↦ cc
  | inl (inr e) ↦ cc
  | inr (v, variant, w) ↦
      let (e, same) =
        bind_ok_inv (erasure_index c raw v.kind) (parsed raw v)
          (sym (parse_well_sized c raw v (byte-IsByte raw 64 bytes) w) ∙ h) in
      subst (IsParsed raw) same (parsed-IsParsed raw v e variant w.has_payload)
]

-- A data shred that is not shorter than its kind's payload and whose index is below the index of its
-- FEC set.
pub record IsBackward (raw : Bytes) : Type 0 where
  pub variant : ShredVariant
  pub well_sized : IsWellSized raw variant
  pub is_data : variant.kind ≡ data_shred
  pub below : number raw 73 77 < number raw 79 83

erasure_index_cases :
    (c : Bool) (raw : Bytes) (k : ShredKind)
    → ((e : ℕ) × (erasure_index c raw k ≡ ok e))
      ⊎ ((erasure_index c raw k ≡ panic)
          × (c ≡ true)
          × (k ≡ data_shred)
          × (number raw 73 77 < number raw 79 83))
unfolding sub_unsigned
erasure_index_cases c raw code_shred = inl (data_shreds_per_fec + number raw 87 89, refl)
erasure_index_cases c raw data_shred =
    let i = number raw 73 77 in
    let f = number raw 79 83 in
    elim (Bool-cases (leb f i)) [
      | inl e ↦ inl (i - f, rw e refl)
      | inr e ↦ elim (Bool-cases c) [
        | inl t ↦ inr (rw (e, t) refl, t, refl, leb-false _ _ e)
        | inr t ↦ inl ((i + 2 ^ 32 - f) % 2 ^ 32, rw (e, t) refl)
      ]
    ]

pub parse_ok :
    (c : Bool) (raw : Bytes) (v : ShredVariant) (e : ℕ)
    → byte raw 64 < 256
    → IsWellSized raw v
    → erasure_index c raw v.kind ≡ ok e
    → parse_shred c raw ≡ ok (parsed raw v e)
parse_ok c raw v e tag_byte w got = parse_well_sized c raw v tag_byte w ∙ rw got refl

parse_panic :
    (c : Bool) (raw : Bytes) (v : ShredVariant)
    → All IsByte raw
    → IsWellSized raw v
    → erasure_index c raw v.kind ≡ panic
    → parse_shred c raw ≡ panic
parse_panic c raw v bytes w got =
    parse_well_sized c raw v (byte-IsByte raw 64 bytes) w ∙ rw got refl

-- Without overflow checks parsing never panics. With them it panics exactly on the data shreds whose
-- index is below the index of their FEC set, although no signature has been checked yet.
pub parse_shred-panic_iff :
    (c : Bool) (raw : Bytes)
    → All IsByte raw
    → (parse_shred c raw ≡ panic) ↔ ((c ≡ true) × IsBackward raw)
unfolding sub_unsigned
parse_shred-panic_iff c raw bytes = (
  λ h. elim (parse_cases c raw bytes) [
    | inl (inl e) ↦ cc
    | inl (inr e) ↦ cc
    | inr (v, variant, w) ↦ elim (erasure_index_cases c raw v.kind) [
      | inl (e, got) ↦ cc (parse_ok c raw v e (byte-IsByte raw 64 bytes) w got)
      | inr (_, checked, is_data, below) ↦
          (checked, record { variant = v; well_sized = w; is_data = is_data; below = below })
    ]
  ],
  λ (checked, b).
      parse_panic c raw b.variant bytes b.well_sized
        (rw (b.is_data, checked, lt→leb_false _ _ b.below) refl),
)

-- The guard on the proof size is never the reason of a rejection.
pub parse_shred-ne-proof_size_overflow :
    (c : Bool) (raw : Bytes) (n : ℕ)
    → All IsByte raw
    → parse_shred c raw ≢ err (proof_size_overflow n)
parse_shred-ne-proof_size_overflow c raw n bytes h = elim (parse_cases c raw bytes) [
  | inl (inl e) ↦ cc
  | inl (inr e) ↦ cc
  | inr (v, variant, w) ↦ elim (erasure_index_cases c raw v.kind) [
    | inl (e, got) ↦ cc (parse_ok c raw v e (byte-IsByte raw 64 bytes) w got)
    | inr (got, _, _, _) ↦ cc (parse_panic c raw v bytes w got)
  ]
]
