-- ===== src/LtHash/Encoding.antt =====
-- What is hashed: the bytes of an account and the bytes of a checksum determine what they encode.
use lattica.Prelude.{
  ℕ, zero, suc, ◌*◌, Bool, List, [], ◌∷◌, ◌++◌, ◌==◌, ◌≡◌, refl, ap, ap₂, arith, length,
  length-append, All, append_inj, ∷_inj, Bool-cases, inl, inr,
}
use lattica.Prelude.Bytes.{
  Bytes, IsByte, to_le_bytes, from_le_bytes, length-to_le_bytes, to_le_bytes_inj,
}
use lattica.LtHash.{
  LtHash, IsLtHash, IsU16, AccountForHash, IsAccount, Blake3, IsBlake3, account_bytes, flag_byte,
  limb_bytes, limbs_of_bytes, hash_account, n_limbs, bytes_per_hash,
}
use lattica.LtHash.Group.{identity-IsLtHash}

pub limbs_of_bytes-limb_bytes : (xs : List ℕ) → All IsU16 xs → limbs_of_bytes (limb_bytes xs) ≡ xs
unfolding limbs_of_bytes limb_bytes to_le_bytes from_le_bytes
limbs_of_bytes-limb_bytes [] h = refl
limbs_of_bytes-limb_bytes (x ∷ xs) (hx, hxs) =
    ap₂ (λ a r. a ∷ r) (omega arith) (limbs_of_bytes-limb_bytes xs hxs)

-- Two values of the type are checksummed from the same bytes only if they are the same.
pub limb_bytes_inj :
    (g h : LtHash) → IsLtHash g → IsLtHash h → limb_bytes g.limbs ≡ limb_bytes h.limbs → g ≡ h
limb_bytes_inj g h vg vh e =
    let limbs_eq : g.limbs ≡ h.limbs = cc (
      ap limbs_of_bytes e,
      limbs_of_bytes-limb_bytes g.limbs vg.limb_range,
      limbs_of_bytes-limb_bytes h.limbs vh.limb_range,
    ) in
    ap (λ t. record { limbs = t }) limbs_eq

flag_byte_inj : (a b : Bool) → flag_byte a ≡ flag_byte b → a ≡ b
flag_byte_inj a b e = ground arith

-- Two accounts of the type are hashed from the same bytes only if they are the same, although the
-- length of their data is not among the bytes.
pub account_bytes_inj :
    (a b : AccountForHash) → IsAccount a → IsAccount b → account_bytes a ≡ account_bytes b → a ≡ b
unfolding account_bytes
account_bytes_inj a b va vb e =
    let (lamports_eq, rest) =
      append_inj (to_le_bytes 8 a.lamports) (to_le_bytes 8 b.lamports)
        (omega (arith, length-to_le_bytes 8 a.lamports, length-to_le_bytes 8 b.lamports)) e in
    let tail_a = (flag_byte a.executable ∷ []) ++ (a.owner ++ a.pubkey) in
    let tail_b = (flag_byte b.executable ∷ []) ++ (b.owner ++ b.pubkey) in
    let data_len : length a.account_data ≡ length b.account_data = omega (
      arith,
      ap length rest,
      length-append a.account_data tail_a,
      length-append b.account_data tail_b,
      length-append a.owner a.pubkey,
      length-append b.owner b.pubkey,
      va.owner_bytes,
      va.pubkey_bytes,
      vb.owner_bytes,
      vb.pubkey_bytes,
    ) in
    let (data_eq, tails) = append_inj a.account_data b.account_data data_len rest in
    let (flag_eq, keys) = ∷_inj tails in
    let (owner_eq, pubkey_eq) =
      append_inj a.owner b.owner (omega (arith, va.owner_bytes, vb.owner_bytes)) keys in
    let lamports_same =
      to_le_bytes_inj 8 a.lamports b.lamports va.lamports_u64 vb.lamports_u64 lamports_eq in
    let flag_same = flag_byte_inj a.executable b.executable flag_eq in
    λ i. record {
      lamports = lamports_same i;
      account_data = data_eq i;
      executable = flag_same i;
      owner = owner_eq i;
      pubkey = pubkey_eq i;
    }

limbs_of_bytes-IsLtHash :
    (n : ℕ) (bs : Bytes)
    → length bs ≡ n * 2
    → All IsByte bs
    → (length (limbs_of_bytes bs) ≡ n) × All IsU16 (limbs_of_bytes bs)
unfolding limbs_of_bytes from_le_bytes
limbs_of_bytes-IsLtHash n [] h v = (omega arith, tt)
limbs_of_bytes-IsLtHash n (x ∷ []) h v = absurd (omega arith)
limbs_of_bytes-IsLtHash zero (x ∷ y ∷ bs) h v = absurd (omega arith)
limbs_of_bytes-IsLtHash (suc n) (x ∷ y ∷ bs) h (vx, (vy, v)) =
    let (c, r) = limbs_of_bytes-IsLtHash n bs (omega arith) v in (omega arith, (omega arith, r))

-- `hash_account` returns a value of the type, for a tombstone and for a live account.
pub hash_account-IsLtHash :
    (b : Blake3) (a : AccountForHash) → IsBlake3 b → IsLtHash (hash_account b a)
unfolding hash_account
hash_account-IsLtHash b a laws =
    let bytes = b.xof (account_bytes a) bytes_per_hash in
    let (c, r) =
      limbs_of_bytes-IsLtHash n_limbs bytes (laws.length-xof (account_bytes a) bytes_per_hash)
        (laws.xof-IsByte (account_bytes a) bytes_per_hash) in
    elim (Bool-cases (a.lamports == 0)) [
      | inl z ↦ rw z identity-IsLtHash
      | inr nz ↦ rw nz (record { count = c; limb_range = r })
    ]
