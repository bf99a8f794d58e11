-- ===== src/Attest.antt =====
-- Attestations and the slot verifier of crates/attest/src/lib.rs.
--
-- `Attestation` keeps the limbs of the delta as a vector of any length, as it came over the wire.
-- `verify_slot_delta` recomputes the delta from the claimed transitions and compares.
use lattica.Prelude.{
  ℕ, Bool, true, false, ◌&&◌, Option, none, some, List, [], ◌∷◌, ◌==◌, if◌then◌else◌, length,
}
use lattica.Prelude.Bytes.{Bytes}
use lattica.Prelude.Outcome.{Outcome, ok, err, panic, ◌>>=◌}
use lattica.LtHash.{
  LtHash, AccountForHash, Blake3, n_limbs, identity, mix_in, mix_out, hash_account, checksum,
}
pub mod Verify

pub record Attestation : Type 0 where
  pub slot : ℕ
  pub fec_set_index : ℕ
  pub leader_pubkey : Bytes
  pub fec_merkle_root : Bytes
  pub leader_sig : Bytes
  pub delta_lthash : List ℕ

-- The `assert_eq!` on the limb count comes first.
unfoldable pub from_delta : ℕ → ℕ → Bytes → Bytes → Bytes → LtHash → Outcome ⊥ Attestation
from_delta slot fec_set_index leader_pubkey fec_merkle_root leader_sig delta =
    if length delta.limbs == n_limbs
    then ok (record {
      slot = slot;
      fec_set_index = fec_set_index;
      leader_pubkey = leader_pubkey;
      fec_merkle_root = fec_merkle_root;
      leader_sig = leader_sig;
      delta_lthash = delta.limbs;
    })
    else panic

-- `none` for a vector that does not hold `n_limbs` limbs.
pub delta_as_lthash : Attestation → Option LtHash
delta_as_lthash att =
    if length att.delta_lthash == n_limbs then some (record { limbs = att.delta_lthash }) else none

pub record AccountTransition : Type 0 where
  pub old : Option AccountForHash
  pub new : Option AccountForHash

-- `delta_mismatch` carries the checksums of the attested and of the recomputed delta.
pub data VerifyError : Type 0 where
  empty_transition : VerifyError
  malformed_delta : VerifyError
  delta_mismatch : Bytes → Bytes → VerifyError

-- The match in the body of the loop.
pub apply_transition :
    Blake3 → LtHash → Option AccountForHash → Option AccountForHash → Outcome VerifyError LtHash
apply_transition b h none none = err empty_transition
apply_transition b h (some o) (some n) =
    ok (mix_in (mix_out h (hash_account b o)) (hash_account b n))
apply_transition b h (some o) none = ok (mix_out h (hash_account b o))
apply_transition b h none (some n) = ok (mix_in h (hash_account b n))

-- The loop over the transitions.
pub recompute : Blake3 → LtHash → List AccountTransition → Outcome VerifyError LtHash
recompute b h [] = ok h
recompute b h (t ∷ ts) = apply_transition b h t.old t.new >>= λ h'. recompute b h' ts

-- `==` on two arrays of limbs.
pub limbs_eq : List ℕ → List ℕ → Bool
limbs_eq [] [] = true
limbs_eq [] (y ∷ ys) = false
limbs_eq (x ∷ xs) [] = false
limbs_eq (x ∷ xs) (y ∷ ys) = x == y && limbs_eq xs ys

-- `Option::ok_or`
abbrev pub ok_or {ℓ} : {A : Type ℓ} → Option A → VerifyError → Outcome VerifyError A
ok_or none e = err e
ok_or (some a) e = ok a

abbrev pub compare_deltas : Blake3 → LtHash → LtHash → Outcome VerifyError (Unit {0})
compare_deltas b attested recomputed =
    if limbs_eq recomputed.limbs attested.limbs
    then ok tt
    else err (delta_mismatch (checksum b attested) (checksum b recomputed))

pub verify_slot_delta :
    Blake3 → Attestation → List AccountTransition → Outcome VerifyError (Unit {0})
verify_slot_delta b att ts = do
  attested ← ok_or (delta_as_lthash att) malformed_delta
  recomputed ← recompute b identity ts
  compare_deltas b attested recomputed
