-- ===== src/Tests/LtHash.antt =====
-- The theorems on the accounts hash, applied.
use mathlib.Core.List.{Perm}
use mathlib.Core.List.Perm
use lattica.Prelude.{
  ℕ, none, some, [], ◌∷◌, ◌++◌, replicate, length-replicate, All-replicate, ◌≡◌, arith,
}
use lattica.LtHash.{LtHash, IsLtHash, IsU16, n_limbs, mix_in, new_delta}
use lattica.LtHash.Delta.{
  Change, accounts_hash, olds, news, mix_all, mix_all-perm, delta_reconstructs_after,
}
use lattica.Tests.Fixtures.{toy_blake3, toy_blake3-IsBlake3, account}

abbrev constant_hash : ℕ → LtHash
constant_hash x = record { limbs = replicate n_limbs x }

constant_hash-IsLtHash : (x : ℕ) → IsU16 x → IsLtHash (constant_hash x)
constant_hash-IsLtHash x h = record {
  count = length-replicate n_limbs x;
  limb_range = All-replicate IsU16 n_limbs x h;
}

abbrev high : LtHash
high = constant_hash 65535

abbrev low : LtHash
low = constant_hash 3

high-IsLtHash : IsLtHash high
high-IsLtHash = constant_hash-IsLtHash 65535 (omega arith)

low-IsLtHash : IsLtHash low
low-IsLtHash = constant_hash-IsLtHash 3 (omega arith)

-- A balance changes, an account is created.
abbrev change_1 : Change
change_1 = (some (account 500 7), some (account 400 7))

abbrev change_2 : Change
change_2 = (none, some (account 100 8))

delta_reconstructs_after_example :
    mix_in
      (accounts_hash toy_blake3 (olds (change_1 ∷ change_2 ∷ []) ++ (account 1 9 ∷ [])))
      (mix_all toy_blake3 new_delta (change_1 ∷ change_2 ∷ [])).delta
    ≡ accounts_hash toy_blake3 (news (change_1 ∷ change_2 ∷ []) ++ (account 1 9 ∷ []))
delta_reconstructs_after_example =
    delta_reconstructs_after toy_blake3 toy_blake3-IsBlake3 (change_1 ∷ change_2 ∷ [])
      (account 1 9 ∷ [])

swapped : Perm (change_1 ∷ change_2 ∷ []) (change_2 ∷ change_1 ∷ [])
swapped = Perm.swap _ _ _

mix_all-perm_example :
    mix_all toy_blake3 new_delta (change_1 ∷ change_2 ∷ [])
    ≡ mix_all toy_blake3 new_delta (change_2 ∷ change_1 ∷ [])
mix_all-perm_example =
    mix_all-perm toy_blake3 toy_blake3-IsBlake3 (change_1 ∷ change_2 ∷ [])
      (change_2 ∷ change_1 ∷ []) swapped
