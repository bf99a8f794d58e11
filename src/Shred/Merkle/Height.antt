-- ===== src/Shred/Merkle/Height.antt =====
-- The length of a proof in a full tree.
use native.Mathlib.Nat.{pow-suc}
use lattica.Prelude.{
  ℕ, zero, suc, ◌*◌, ◌/◌, ◌^◌, ◌≤◌, ◌<◌, true, false, List, [], ◌∷◌, ◌++◌, length, length-append,
  length-take, take, ltb, lt→ltb, le→ltb_false, All, ◌≡◌, refl, sym, ap, arith,
}
use lattica.Prelude.Bytes.{Bytes}
use lattica.Prelude.Outcome.{ok, >>=-eq-ok}
use lattica.Shred.Merkle.{
  Sha256, IsSha256, next_level, build_levels, sibling, proof_from, Tree, top_node, build_tree,
  merkle_proof,
}
use lattica.Shred.Merkle.Levels.{
  IsNode, length-next_level, next_level-IsNode, sibling-IsNode, build_levels_more, build_levels_one,
}

pow2_pos : (k : ℕ) → 0 < 2 ^ k
pow2_pos zero = omega arith
pow2_pos (suc k) = let p = pow-suc 2 k in omega (arith, p, pow2_pos k)

proof_from_more :
    (level : List Bytes) (levels : List (List Bytes)) (i : ℕ)
    → ltb 1 (length level) ≡ true
    → proof_from (level ∷ levels) i ≡ take 20 (sibling level i) ++ proof_from levels (i / 2)
unfolding proof_from
proof_from_more level levels i e = rw e refl

proof_from_one :
    (level : List Bytes) (i : ℕ) → ltb 1 (length level) ≡ false → proof_from (level ∷ []) i ≡ []
unfolding proof_from
proof_from_one level i e = rw e refl

-- Over `2 ^ k` leaves a proof has `k` entries.
pub length-proof_from :
    (sha : Sha256) (laws : IsSha256 sha) (k fuel : ℕ) (level : List Bytes) (i : ℕ)
    → All IsNode level
    → length level ≡ 2 ^ k
    → k ≤ fuel
    → length (proof_from (build_levels sha fuel level) i) ≡ 20 * k
length-proof_from sha laws zero fuel level i nodes count enough =
    let one : ltb 1 (length level) ≡ false = le→ltb_false 1 (length level) (omega (arith, count)) in
    rw (build_levels_one sha fuel level one, proof_from_one level i one) refl
length-proof_from sha laws (suc k) zero level i nodes count enough = absurd (omega arith)
length-proof_from sha laws (suc k) (suc fuel) level i nodes count enough =
    let p = pow-suc 2 k in
    let pos : 0 < 2 ^ k = pow2_pos k in
    let more : ltb 1 (length level) ≡ true =
      lt→ltb 1 (length level) (omega (arith, count, p, pos)) in
    let above = next_level sha level in
    let levels = build_levels sha fuel above in
    let rest =
      length-proof_from sha laws k fuel above (i / 2) (next_level-IsNode sha laws level)
        (omega (arith, length-next_level sha level, count, p)) (omega arith) in
    rw (build_levels_more sha fuel level more, proof_from_more level levels i more)
      (omega (
        arith,
        length-append (take 20 (sibling level i)) (proof_from levels (i / 2)),
        length-take 20 (sibling level i),
        sibling-IsNode level i nodes (omega (arith, count, p, pos)),
        rest,
      ))

build_tree_levels :
    (sha : Sha256) (leaves : List Bytes) (tree : Tree)
    → build_tree sha leaves ≡ ok tree
    → tree.levels ≡ build_levels sha (length leaves) leaves
unfolding build_tree
build_tree_levels sha leaves tree built =
    let levels = build_levels sha (length leaves) leaves in
    let (root, _, same) = >>=-eq-ok (top_node levels) _ built in
    let e : record { levels = levels; root = root } ≡ tree = cc in sym (ap (λ t. t.levels) e)

-- Over `2 ^ k` leaves every proof of the tree has `k` entries.
pub length-merkle_proof :
    (sha : Sha256) (laws : IsSha256 sha) (k : ℕ) (leaves : List Bytes) (tree : Tree) (i : ℕ)
    → All IsNode leaves
    → length leaves ≡ 2 ^ k
    → k ≤ length leaves
    → build_tree sha leaves ≡ ok tree
    → length (merkle_proof tree i) ≡ 20 * k
unfolding merkle_proof
length-merkle_proof sha laws k leaves tree i nodes count enough built =
    rw (build_tree_levels sha leaves tree built)
      (length-proof_from sha laws k (length leaves) leaves i nodes count enough)
