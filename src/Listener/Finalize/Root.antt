-- ===== src/Listener/Finalize/Root.antt =====
-- `aggregate_root` is the root of the Merkle tree of crates/shred/src/fec_set.rs.
use lattica.Prelude.{
  ℕ, zero, suc, ◌≤◌, ◌<◌, true, some, List, [], ◌∷◌, length, ltb, lt→ltb, ◌≡◌, refl, arith,
}
use lattica.Prelude.Bytes.{Bytes}
use lattica.Prelude.Outcome.{ok}
use lattica.Shred.Merkle.{Sha256, Tree, next_level, build_levels, last_elem?, top_node, build_tree}
use lattica.Shred.Merkle.Levels.{
  length-next_level, build_levels_more, build_levels_one, last_elem?-build_levels,
}
use lattica.Listener.Finalize.{reduce_layers, aggregate_root}

-- The last level that the loop builds is the last layer that the reduction reaches.
last_level :
    (sha : Sha256) (fuel : ℕ) (level : List Bytes)
    → 0 < length level
    → length level ≤ suc fuel
    → last_elem? (build_levels sha fuel level) ≡ some (reduce_layers sha fuel level ∷ [])
unfolding reduce_layers
last_level sha fuel [] pos enough = absurd (omega arith)
last_level sha zero (a ∷ []) pos enough =
    rw (build_levels_one sha 0 (a ∷ []) refl) (unfold last_elem? in refl)
last_level sha (suc fuel) (a ∷ []) pos enough =
    rw (build_levels_one sha (suc fuel) (a ∷ []) refl) (unfold last_elem? in refl)
last_level sha zero (a ∷ b ∷ rest) pos enough = absurd (omega arith)
last_level sha (suc fuel) (a ∷ b ∷ rest) pos enough =
    let level : List Bytes = a ∷ b ∷ rest in
    let more : ltb 1 (length level) ≡ true = lt→ltb 1 (suc (suc (length rest))) (omega arith) in
    let above = next_level sha level in
    rw (build_levels_more sha fuel level more, last_elem?-build_levels sha fuel level above)
      (last_level sha fuel above (omega (arith, length-next_level sha level))
        (omega (arith, length-next_level sha level)))

-- For any FEC roots but none, the slot root is the root that `build_tree` builds over them as leaves.
pub aggregate_root-build_tree :
    (sha : Sha256) (roots : List Bytes)
    → 0 < length roots
    → (tree : Tree) × (build_tree sha roots ≡ ok tree) × (aggregate_root sha roots ≡ tree.root)
unfolding build_tree aggregate_root top_node
aggregate_root-build_tree sha [] pos = absurd (omega arith)
aggregate_root-build_tree sha (a ∷ rest) pos =
    let roots : List Bytes = a ∷ rest in
    let n = length roots in
    let root = reduce_layers sha n roots in
    let top = last_level sha n roots pos (omega arith) in
    (record { levels = build_levels sha n roots; root = root }, rw (top_node, top) refl, refl)
