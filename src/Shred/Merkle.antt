-- ===== src/Shred/Merkle.antt =====
-- The Merkle tree over the shreds of a FEC set: `merkle_leaf` and `compute_merkle_root` of
-- crates/shred/src/lib.rs, `build_tree` and `merkle_proof` of crates/shred/src/fec_set.rs.
--
-- SHA-256 is a function on byte strings: the `update` calls of one hasher feed it the concatenation
-- of their arguments. A `[u8; 32]` is a byte string of 32 bytes.
use Prim.Native.Char.{code}
use Prim.Native.String.{String}
use lattica.Prelude.{
  ℕ, zero, suc, ◌+◌, ◌-◌, ◌/◌, ◌%◌, Bool, Option, none, some, List, [], ◌∷◌, ◌++◌, ◌==◌, ltb,
  if◌then◌else◌, length, take, drop, get_elem?, get_or, bit_xor, ◌≡◌,
}
use lattica.Prelude.Bytes.{Bytes}
use lattica.Prelude.Outcome.{Outcome, ok, err, panic, ◌>>=◌, slice}
use lattica.Shred.Variant.{ShredError, merkle_root_mismatch, size_of_proof_entry}
use lattica.Shred.Parse.{ParsedShred}
pub mod Levels
pub mod Height
pub mod Proof
pub mod Binding

abbrev pub Sha256 : Type 0
Sha256 = Bytes → Bytes

-- The digest has 32 bytes.
pub record IsSha256 (sha : Sha256) : Type 0 where
  pub length-digest : (m : Bytes) → length (sha m) ≡ 32

abbrev codes : String → Bytes
codes String.[] = []
codes (String.◌∷◌ c s) = code c ∷ codes s

abbrev pub merkle_hash_prefix_leaf : Bytes
merkle_hash_prefix_leaf = 0 ∷ codes "SOLANA_MERKLE_SHREDS_LEAF"

abbrev pub merkle_hash_prefix_node : Bytes
merkle_hash_prefix_node = 1 ∷ codes "SOLANA_MERKLE_SHREDS_NODE"

unfoldable pub hash_leaf : Sha256 → Bytes → Bytes
hash_leaf sha msg = sha (merkle_hash_prefix_leaf ++ msg)

-- The hash of two entries that are cut to 20 bytes already.
unfoldable pub hash_entries : Sha256 → Bytes → Bytes → Bytes
hash_entries sha left right = sha (merkle_hash_prefix_node ++ (left ++ right))

unfoldable pub merkle_leaf : Sha256 → ParsedShred → Outcome ShredError Bytes
merkle_leaf sha p = do msg ← slice p.raw p.leaf_range.start p.leaf_range.end; ok (hash_leaf sha msg)

-- `chunks_exact(n)`: the `length xs / n` chunks that are full.
unfoldable pub chunks_of : ℕ → ℕ → Bytes → List Bytes
chunks_of zero n xs = []
chunks_of (suc k) n xs = take n xs ∷ chunks_of k n (drop n xs)

unfoldable pub chunks_exact : ℕ → Bytes → List Bytes
unfolding chunks_of
chunks_exact n xs = chunks_of (length xs / n) n xs

-- The body of the loop: the parent of a node at `index` whose sibling's entry is `chunk`.
unfoldable pub parent : Sha256 → ℕ → Bytes → Bytes → Bytes
parent sha index node chunk =
    if index % 2 == 0
    then hash_entries sha (take size_of_proof_entry node) chunk
    else hash_entries sha chunk (take size_of_proof_entry node)

-- The loop over the chunks, from `index` and `node`.
unfoldable pub climb : Sha256 → ℕ → Bytes → List Bytes → ℕ × Bytes
climb sha index node [] = (index, node)
climb sha index node (chunk ∷ chunks) = climb sha (index / 2) (parent sha index node chunk) chunks

unfoldable pub compute_merkle_root : Sha256 → ℕ → Bytes → Bytes → Outcome ShredError Bytes
compute_merkle_root sha leaf_index leaf proof =
    if length proof % size_of_proof_entry == 0
    then (let (index, node) = climb sha leaf_index leaf (chunks_exact size_of_proof_entry proof) in
        if index == 0 then ok node else err merkle_root_mismatch)
    else err merkle_root_mismatch

pub record Tree : Type 0 where
  pub levels : List (List Bytes)
  pub root : Bytes

abbrev pub hash_pair : Sha256 → Bytes → Bytes → Bytes
hash_pair sha a b = hash_entries sha (take size_of_proof_entry a) (take size_of_proof_entry b)

-- The loop over `chunks(2)`: a last odd node is paired with itself.
pub next_level : Sha256 → List Bytes → List Bytes
next_level sha [] = []
next_level sha (a ∷ []) = hash_pair sha a a ∷ []
next_level sha (a ∷ b ∷ rest) = hash_pair sha a b ∷ next_level sha rest

-- The `while` loop, from its last level on; the fuel counts its rounds.
pub build_levels : Sha256 → ℕ → List Bytes → List (List Bytes)
build_levels sha zero last = last ∷ []
build_levels sha (suc fuel) last =
    let rest = build_levels sha fuel (next_level sha last) in
    if ltb 1 (length last) then last ∷ rest else last ∷ []

unfoldable pub last_elem? {ℓ} : {A : Type ℓ} → List A → Option A
last_elem? [] = none
last_elem? (x ∷ []) = some x
last_elem? (x ∷ y ∷ rest) = last_elem? (y ∷ rest)

-- `levels.last().unwrap()[0]`
unfoldable pub top_node : List (List Bytes) → Outcome ShredError Bytes
top_node levels = elim (last_elem? levels) [
  | none ↦ panic
  | some last ↦ elim (get_elem? last 0) [ none ↦ panic | some root ↦ ok root ]
]

-- A level halves in each round, so as many rounds as leaves are enough.
unfoldable pub build_tree : Sha256 → List Bytes → Outcome ShredError Tree
build_tree sha leaves = do
  let levels = build_levels sha (length leaves) leaves
  root ← top_node levels
  ok (record { levels = levels; root = root })

-- The node whose entry is written for `index`: the sibling, or the last node where there is none.
-- Both indices are in range wherever the function is called.
pub sibling : List Bytes → ℕ → Bytes
sibling level index =
    if ltb (bit_xor index 1) (length level)
    then get_or level (bit_xor index 1) []
    else get_or level (length level - 1) []

-- The loop over the levels; `break` at the first level with one node.
pub proof_from : List (List Bytes) → ℕ → Bytes
proof_from [] index = []
proof_from (level ∷ levels) index =
    let rest = proof_from levels (index / 2) in
    if ltb 1 (length level) then take size_of_proof_entry (sibling level index) ++ rest else []

pub merkle_proof : Tree → ℕ → Bytes
merkle_proof tree index = proof_from tree.levels index
