-- ===== src/Tests/Fixtures.antt =====
-- Toy instances of the hash functions and of Ed25519, with the laws that the theorems ask for, and
-- the accounts of the tests.
use lattica.Prelude.{
  ◌++◌, List, ◌-◌, ◌*◌, ◌/◌, ℕ, ◌%◌, Bool, true, false, some, [], ◌∷◌, ◌==◌, length, get_or, ltb,
  ltb→lt, ◌&&◌, inl, inr, Bool-cases, replicate, length-replicate, All, All-replicate, ◌≡◌, refl,
  arith,
}
use lattica.Prelude.Bytes.{Bytes, IsByte, from_le_bytes}
use lattica.LtHash.{Blake3, IsBlake3, AccountForHash, IsAccount}
use lattica.Shred.Merkle.{Sha256, IsSha256}
use lattica.Shred.Verify.{Ed25519}
use lattica.Prelude.Outcome.{ok}
use lattica.Listener.State.{Env}
use lattica.Listener.Ingest.Steps.{IsReedSolomon}
use lattica.Listener.Run.{IsPacket}

-- The byte that a toy digest repeats.
abbrev pub mark : Bytes → ℕ
mark m = from_le_bytes m % 251

abbrev pub toy_blake3 : Blake3
toy_blake3 = record { hash = λ m. m; xof = λ m n. replicate n (mark m) }

pub toy_blake3-IsBlake3 : IsBlake3 toy_blake3
toy_blake3-IsBlake3 = record {
  length-xof = λ m n. length-replicate n (mark m);
  xof-IsByte = λ m n. All-replicate IsByte n (mark m) (omega arith);
}

abbrev pub toy_sha256 : Sha256
toy_sha256 = λ m. replicate 32 (length m % 251)

pub toy_sha256-IsSha256 : IsSha256 toy_sha256
toy_sha256-IsSha256 = record { length-digest = λ m. length-replicate 32 (length m % 251) }

-- The signature starts with the key's first byte and then the message's.
abbrev pub toy_ed25519 : Ed25519
toy_ed25519 = record {
  VerifyingKey = Bytes;
  Signature = Bytes;
  key_from_bytes = λ k. some k;
  signature_from_slice = λ s. some s;
  verify = λ k m s. get_or s 0 0 == get_or k 0 0;
}

abbrev pub account : ℕ → ℕ → AccountForHash
account lamports id = record {
  lamports = lamports;
  account_data = 1 ∷ id ∷ [];
  executable = false;
  owner = replicate 32 9;
  pubkey = replicate 32 id;
}

pub account-IsAccount : IsAccount (account 500 7)
account-IsAccount = record { lamports_u64 = omega arith; owner_bytes = refl; pubkey_bytes = refl }

-- A test for the bytes of a fixture.
abbrev pub all_bytes : Bytes → Bool
all_bytes [] = true
all_bytes (x ∷ xs) = ltb x 256 && all_bytes xs

pub all_bytes_lem : (xs : Bytes) → all_bytes xs ≡ true → All IsByte xs
all_bytes_lem [] h = tt
all_bytes_lem (x ∷ xs) h = elim (Bool-cases (ltb x 256)) [
  | inl e ↦ (ltb→lt x 256 e, all_bytes_lem xs (rw e at h))
  | inr e ↦ cc (rw e at h)
]

-- A data shred of slot 5 with index 9 in the set that starts at 7, two proof entries and the flag of
-- the last shred: its bytes up to the flags, then zeros.
abbrev shred_head : Bytes
shred_head =
    replicate 64 1
    ++ ((0x92 ∷ 5 ∷ [])
        ++ (replicate 7 0 ++ (9 ∷ 0 ∷ 0 ∷ 0 ∷ 4 ∷ 0 ∷ 7 ∷ 0 ∷ 0 ∷ 0 ∷ 1 ∷ 0 ∷ 0x80 ∷ [])))

abbrev pub shred : Bytes
shred = shred_head ++ replicate 1117 0

pub shred-IsByte : All IsByte shred
shred-IsByte = all_bytes_lem shred refl

abbrev pub leader : Bytes
leader = replicate 32 1

-- Index 6 in the set that starts at 7.
abbrev pub backward : Bytes
backward =
    replicate 64 1
    ++ ((0x92 ∷ 5 ∷ [])
        ++ (replicate 7 0
            ++ ((6 ∷ 0 ∷ 0 ∷ 0 ∷ 4 ∷ 0 ∷ 7 ∷ 0 ∷ 0 ∷ 0 ∷ 1 ∷ 0 ∷ 0x80 ∷ []) ++ replicate 1117 0)))

pub backward-IsByte : All IsByte backward
backward-IsByte = all_bytes_lem backward refl

-- Three leaves: the last is paired with itself.
abbrev pub leaves : List Bytes
leaves = replicate 32 1 ∷ replicate 32 2 ∷ replicate 32 3 ∷ []

-- The build has no overflow checks; `f64` is played by ℕ, and nothing is ever recovered.
abbrev pub toy_env : Env
toy_env = record {
  overflow_checks = false;
  sha = toy_sha256;
  ed = toy_ed25519;
  float = record {
    F = ℕ;
    of_nat = λ n. n;
    sub = λ a b. a - b;
    mul = λ a b. a * b;
    div = λ a b. a / b;
  };
  rs = record {
    Codec = Unit {0};
    Error = ℕ;
    new = λ n m. ok tt;
    encode_sep = λ c shards blank. ok blank;
    reconstruct_with = λ c shards. ok shards;
  };
}

pub toy_env-IsReedSolomon : IsReedSolomon toy_env.rs
toy_env-IsReedSolomon = record {
  new-ne-panic = λ n m h. cc;
  reconstruct_with-ne-panic = λ c shards h. cc;
}

pub toy_IsPacket : (raw : Bytes) → All IsByte raw → IsPacket toy_env raw
toy_IsPacket raw h = record { bytes = h; no_overflow = λ (e, b). cc }
