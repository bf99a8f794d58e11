-- ===== src/Shred/FecSet/Results.antt =====
-- The key pair of a leader, and what `verify_shred` is to return for the shreds of a set.
use lattica.Prelude.{
  ℕ, ◌+◌, ◌-◌, Bool, true, none, some, List, [], ◌∷◌, ◌++◌, length, ◌≡◌, refl, ap, ◌∙◌, arith,
}
use lattica.Prelude.Bytes.{Bytes}
use lattica.Prelude.Outcome.{ok}
use lattica.Prelude.Buffers.{sizes}
use lattica.Shred.Variant.{data_shred, code_shred}
use lattica.Shred.Variant.RoundTrip.{IsVariant}
use lattica.Shred.Parse.Shape.{number, erasure_index, sub_unsigned_lem}
use lattica.Shred.Verify.{Ed25519, VerifiedShred}
use lattica.Shred.FecSet.{Signer, FecSetParams, data_variant, code_variant}

-- The leader's key pair: the public key decodes, and every signature has 64 bytes, decodes and
-- verifies.
pub record IsKeyPair (ed : Ed25519) (signer : Signer) (key : signer.SigningKey) : Type 0 where
  pub public : ed.VerifyingKey
  pub decodes : ed.key_from_bytes (signer.verifying_key key) ≡ some public
  pub length-sign : (m : Bytes) → length (signer.sign key m) ≡ 64
  pub signs :
      (m : Bytes)
      → (g : ed.Signature) × (ed.signature_from_slice (signer.sign key m) ≡ some g)
        × (ed.verify public m g ≡ true)

pub data_variant-IsVariant : IsVariant data_variant
data_variant-IsVariant = record { small = omega arith; is_chained = refl }

pub code_variant-IsVariant : IsVariant code_variant
code_variant-IsVariant = record { small = omega arith; is_chained = refl }

pub sizes-append : (xs ys : List Bytes) → sizes (xs ++ ys) ≡ sizes xs + sizes ys
sizes-append [] ys = omega arith
sizes-append (x ∷ xs) ys = omega (arith, sizes-append xs ys)

pub erasure_index_data :
    (c : Bool) (raw : Bytes) (index fec : ℕ)
    → number raw 73 77 ≡ fec + index
    → number raw 79 83 ≡ fec
    → erasure_index c raw data_shred ≡ ok index
erasure_index_data c raw index fec e f =
    let back : fec + index - fec ≡ index = omega arith in
    rw (e, f) (sub_unsigned_lem c 32 (fec + index) fec (omega arith) ∙ ap ok back)

module _ {K : Type 0} (params : FecSetParams K) where
  -- What `verify_shred` returns for the shreds of a set.
  abbrev pub data_result : Bytes → ℕ → VerifiedShred
  data_result root i = record {
    slot = params.slot;
    fec_set_index = params.fec_set_index;
    index = params.fec_set_index + i;
    erasure_shard_index = i;
    merkle_root = root;
    chained_root = some params.chained_root;
    kind = data_shred;
    data_flags = some params.flags;
  }

  abbrev pub code_result : Bytes → ℕ → VerifiedShred
  code_result root j = record {
    slot = params.slot;
    fec_set_index = params.fec_set_index;
    index = params.fec_set_index + j;
    erasure_shard_index = 32 + j;
    merkle_root = root;
    chained_root = some params.chained_root;
    kind = code_shred;
    data_flags = none;
  }
