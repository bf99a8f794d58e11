-- ===== src/LtHash.antt =====
-- The homomorphic accounts hash of crates/lthash/src/lib.rs: the vector of limbs with its two
-- in-place operations, the hash of an account, and the builder of a slot's delta.
--
-- `[u16; N_LIMBS]` is a list of numbers. The loops over `0..N_LIMBS` meet each pair of limbs once
-- and in order, which is `zip_with`. Blake3 is the record `Blake3` of its one-shot and its
-- extendable output; the `update` calls of one hasher feed it the concatenation of their arguments.
use lattica.Prelude.{
  ℕ, zero, suc, ◌+◌, ◌-◌, ◌*◌, ◌%◌, ◌^◌, ◌<◌, Bool, true, ◌&&◌, Option, none, some, List, [], ◌∷◌,
  ◌++◌, ◌==◌, if◌then◌else◌, ◌≡◌, length, replicate, All,
}
use lattica.Prelude.Bytes.{Bytes, IsByte, to_le_bytes, from_le_bytes}
pub mod Group
pub mod Encoding
pub mod Delta

abbrev pub n_limbs : ℕ
n_limbs = 1024

abbrev pub bytes_per_hash : ℕ
bytes_per_hash = n_limbs * 2

pub record LtHash : Type 0 where
  pub limbs : List ℕ

abbrev pub IsU16 : ℕ → Type 0
IsU16 x = x < 2 ^ 16

-- A value of the Rust type: 1024 limbs, each a `u16`.
pub record IsLtHash (h : LtHash) : Type 0 where
  pub count : length h.limbs ≡ n_limbs
  pub limb_range : All IsU16 h.limbs

-- `u16::wrapping_add` and `u16::wrapping_sub`; 2 ^ 16 is added first since `-` stops at 0.
abbrev pub wrapping_add : ℕ → ℕ → ℕ
wrapping_add a b = (a + b) % 2 ^ 16

abbrev pub wrapping_sub : ℕ → ℕ → ℕ
wrapping_sub a b = (a + 2 ^ 16 - b) % 2 ^ 16

pub zip_with : (ℕ → ℕ → ℕ) → List ℕ → List ℕ → List ℕ
zip_with f [] ys = []
zip_with f (x ∷ xs) [] = []
zip_with f (x ∷ xs) (y ∷ ys) = f x y ∷ zip_with f xs ys

pub identity : LtHash
identity = record { limbs = replicate n_limbs 0 }

pub mix_in : LtHash → LtHash → LtHash
mix_in h other = record { limbs = zip_with wrapping_add h.limbs other.limbs }

pub mix_out : LtHash → LtHash → LtHash
mix_out h other = record { limbs = zip_with wrapping_sub h.limbs other.limbs }

pub all_zero : List ℕ → Bool
all_zero [] = true
all_zero (x ∷ xs) = x == 0 && all_zero xs

pub is_identity : LtHash → Bool
is_identity h = all_zero h.limbs

-- `blake3::hash`, and `finalize_xof().fill` into a buffer of the given length.
pub record Blake3 : Type 0 where
  pub hash : Bytes → Bytes
  pub xof : Bytes → ℕ → Bytes

-- What the crate documents of the extendable output: it fills the buffer with bytes.
pub record IsBlake3 (b : Blake3) : Type 0 where
  pub length-xof : (m : Bytes) (n : ℕ) → length (b.xof m n) ≡ n
  pub xof-IsByte : (m : Bytes) (n : ℕ) → All IsByte (b.xof m n)

-- The buffer of `checksum`: limb `i` is written to bytes `2i` and `2i + 1`.
pub limb_bytes : List ℕ → Bytes
limb_bytes [] = []
limb_bytes (x ∷ xs) = to_le_bytes 2 x ++ limb_bytes xs

unfoldable pub checksum : Blake3 → LtHash → Bytes
checksum b h = b.hash (limb_bytes h.limbs)

pub record AccountForHash : Type 0 where
  pub lamports : ℕ
  pub account_data : Bytes
  pub executable : Bool
  pub owner : Bytes
  pub pubkey : Bytes

-- A value of the Rust type.
pub record IsAccount (a : AccountForHash) : Type 0 where
  pub lamports_u64 : a.lamports < 2 ^ 64
  pub owner_bytes : length a.owner ≡ 32
  pub pubkey_bytes : length a.pubkey ≡ 32

-- `executable as u8`
abbrev pub flag_byte : Bool → ℕ
flag_byte e = if e then 1 else 0

-- The bytes fed to the hasher by the five `update` calls.
pub account_bytes : AccountForHash → Bytes
account_bytes a =
    to_le_bytes 8 a.lamports
    ++ (a.account_data ++ ((flag_byte a.executable ∷ []) ++ (a.owner ++ a.pubkey)))

-- `limbs[i] = u16::from_le_bytes([bytes[2i], bytes[2i + 1]])` for each `i`.
pub limbs_of_bytes : Bytes → List ℕ
limbs_of_bytes [] = []
limbs_of_bytes (x ∷ []) = []
limbs_of_bytes (x ∷ y ∷ bytes) = from_le_bytes (x ∷ y ∷ []) ∷ limbs_of_bytes bytes

unfoldable pub hash_account : Blake3 → AccountForHash → LtHash
hash_account b a =
    if a.lamports == 0
    then identity
    else record { limbs = limbs_of_bytes (b.xof (account_bytes a) bytes_per_hash) }

pub record SlotDelta : Type 0 where
  pub delta : LtHash

unfoldable pub new_delta : SlotDelta
new_delta = record { delta = identity }

pub mix_old : Blake3 → SlotDelta → Option AccountForHash → SlotDelta
mix_old b d none = d
mix_old b d (some o) = record d { delta = mix_out d.delta (hash_account b o) }

pub mix_new : Blake3 → SlotDelta → Option AccountForHash → SlotDelta
mix_new b d none = d
mix_new b d (some n) = record d { delta = mix_in d.delta (hash_account b n) }

-- `SlotDelta::mix`: the old state is taken out, then the new state is put in.
unfoldable pub mix : Blake3 → SlotDelta → Option AccountForHash → Option AccountForHash → SlotDelta
unfolding mix_old mix_new
mix b d old new = mix_new b (mix_old b d old) new
