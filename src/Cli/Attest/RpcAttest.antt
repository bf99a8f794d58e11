-- ===== src/Cli/Attest/RpcAttest.antt =====
-- What the attestation of one account tells: `attest_and_verify`, from the second snapshot on.
use lattica.Prelude.{ℕ, some, List, ==_iff, length, All, ◌≡◌, ◌≢◌, refl, ap}
use lattica.Prelude.Bytes.{Bytes}
use lattica.Prelude.Outcome.{ok, err}
use lattica.LtHash.{
  LtHash, IsLtHash, Blake3, IsBlake3, AccountForHash, n_limbs, checksum, mix, new_delta,
}
use lattica.LtHash.Group.{identity-IsLtHash}
use lattica.LtHash.Delta.{mix-IsLtHash, mix_all}
use lattica.Attest.{Attestation, from_delta, AccountTransition, delta_mismatch, verify_slot_delta}
use lattica.Attest.Verify.{
  built_delta, IsProper, verify_slot_delta-ok_iff, verify_slot_delta_errors,
}
use lattica.Cli.Attest.{AccountSnapshot, one_transition}

-- The attestation of a delta.
abbrev pub attestation_of : ℕ → Bytes → Bytes → Bytes → LtHash → Attestation
attestation_of slot pk root sig delta = record {
  slot = slot;
  fec_set_index = 0;
  leader_pubkey = pk;
  fec_merkle_root = root;
  leader_sig = sig;
  delta_lthash = delta.limbs;
}

pub from_delta_lem :
    (slot : ℕ) (pk root sig : Bytes) (delta : LtHash)
    → IsLtHash delta
    → from_delta slot 0 pk root sig delta ≡ ok (attestation_of slot pk root sig delta)
unfolding from_delta
from_delta_lem slot pk root sig delta v = rw ((==_iff (length delta.limbs) n_limbs).1 v.count) refl

-- The verdict on transitions whose delta is, or is not, the attested one.
pub verdict_same :
    (b : Blake3) (slot : ℕ) (pk root sig : Bytes) (delta : LtHash) (ts : List AccountTransition)
    → IsLtHash delta
    → All IsProper ts
    → built_delta b ts ≡ delta
    → verify_slot_delta b (attestation_of slot pk root sig delta) ts ≡ ok tt
verdict_same b slot pk root sig delta ts v proper e =
    (verify_slot_delta-ok_iff b (attestation_of slot pk root sig delta) ts).1
      (v.count, proper, ap (λ (h : LtHash). h.limbs) e)

pub verdict_other :
    (b : Blake3) (slot : ℕ) (pk root sig : Bytes) (delta : LtHash) (ts : List AccountTransition)
    → IsLtHash delta
    → All IsProper ts
    → built_delta b ts ≢ delta
    → verify_slot_delta b (attestation_of slot pk root sig delta) ts
      ≡ err (
          delta_mismatch
            (checksum b (record { limbs = delta.limbs }))
            (checksum b (built_delta b ts)))
verdict_other b slot pk root sig delta ts v proper d =
    (verify_slot_delta_errors b (attestation_of slot pk root sig delta) ts).2 v.count proper
      (λ e. d (ap (λ t. record { limbs = t }) e))

-- The account of a snapshot, with other data.
abbrev pub with_data : AccountSnapshot → Bytes → AccountForHash
with_data s bytes = record {
  lamports = s.lamports;
  account_data = bytes;
  executable = s.executable;
  owner = s.owner;
  pubkey = s.pubkey;
}

module _ (b : Blake3) (laws : IsBlake3 b) (pk : Bytes) where
  module _ (old new : AccountForHash) where
    pub one_delta :
        built_delta b (one_transition old new) ≡ (mix b new_delta (some old) (some new)).delta
    one_delta = unfold mix_all in refl

    pub one_transition-IsProper : All IsProper (one_transition old new)
    one_transition-IsProper = ((λ (p, q). cc), tt)

    pub one_valid : IsLtHash (mix b new_delta (some old) (some new)).delta
    one_valid =
        mix-IsLtHash b laws new_delta (some old) (some new) (unfold new_delta in identity-IsLtHash)
