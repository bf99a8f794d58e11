-- ===== src/Shred/Merkle/Proof.antt =====
-- The proof that `merkle_proof` writes for a leaf leads `compute_merkle_root` to the tree's root.
use lattica.Prelude.{
  ℕ, zero, suc, ◌*◌, ◌/◌, ◌%◌, ◌<◌, ◌≤◌, true, false, some, List, [], ◌∷◌, ◌++◌, ltb, if◌then◌else◌,
  length, length-append, length-take, take, drop, take-append, drop-append, get_or, All, ◌≡◌, refl,
  sym, ap, ◌∙◌, inl, inr, Bool-cases, arith, ltb→lt, le→ltb_false, ltb-false,
}
use lattica.Prelude.Bytes.{Bytes}
use lattica.Prelude.Outcome.{ok}
use lattica.Shred.Merkle.{
  Sha256, IsSha256, chunks_of, chunks_exact, parent, climb, compute_merkle_root, Tree, next_level,
  build_levels, last_elem?, top_node, build_tree, sibling, proof_from, merkle_proof,
}
use lattica.Shred.Merkle.Levels.{
  IsNode, next_level_at, length-next_level, next_level-IsNode, sibling-IsNode, build_levels_more,
  build_levels_one, last_elem?-build_levels, has_top,
}

-- An entry of a proof.
abbrev pub IsEntry : Bytes → Type 0
IsEntry e = length e ≡ 20

abbrev pub join : List Bytes → Bytes
join [] = []
join (e ∷ es) = e ++ join es

length-join : (es : List Bytes) → All IsEntry es → length (join es) ≡ 20 * length es
length-join [] h = omega arith
length-join (e ∷ es) h = omega (arith, length-append e (join es), length-join es h.1, h.0)

chunks_of-join : (es : List Bytes) → All IsEntry es → chunks_of (length es) 20 (join es) ≡ es
unfolding chunks_of
chunks_of-join [] h = refl
chunks_of-join (e ∷ es) h =
    let front : take 20 (e ++ join es) ≡ e = rw h.0 at (take-append e (join es)) in
    let back : drop 20 (e ++ join es) ≡ join es = rw h.0 at (drop-append e (join es)) in
    rw (front, back) (ap (λ t. e ∷ t) (chunks_of-join es h.1))

chunks_exact-join : (es : List Bytes) → All IsEntry es → chunks_exact 20 (join es) ≡ es
unfolding chunks_exact
chunks_exact-join es h =
    let count : length (join es) / 20 ≡ length es = omega (arith, length-join es h) in
    rw count (chunks_of-join es h)

-- The entries of a proof, apart.
entries : List (List Bytes) → ℕ → List Bytes
entries [] index = []
entries (level ∷ levels) index =
    let rest = entries levels (index / 2) in
    if ltb 1 (length level) then take 20 (sibling level index) ∷ rest else []

proof_from-join :
    (levels : List (List Bytes)) (i : ℕ) → proof_from levels i ≡ join (entries levels i)
unfolding proof_from entries
proof_from-join [] i = refl
proof_from-join (level ∷ levels) i = elim (Bool-cases (ltb 1 (length level))) [
  | inl e ↦ rw e (ap (λ t. take 20 (sibling level i) ++ t) (proof_from-join levels (i / 2)))
  | inr e ↦ rw e refl
]

-- Every level holds nodes only.
abbrev AllNodes : List (List Bytes) → Type 0
AllNodes [] = Unit
AllNodes (level ∷ levels) = All IsNode level × AllNodes levels

entries-IsEntry :
    (levels : List (List Bytes)) (i : ℕ) → AllNodes levels → All IsEntry (entries levels i)
unfolding entries
entries-IsEntry [] i h = tt
entries-IsEntry (level ∷ levels) i h = elim (Bool-cases (ltb 1 (length level))) [
  | inl e ↦ rw e (
    omega (
      arith,
      length-take 20 (sibling level i),
      sibling-IsNode level i h.0 (omega (arith, ltb→lt _ _ e)),
    ),
    entries-IsEntry levels (i / 2) h.1,
  )
  | inr e ↦ rw e tt
]

build_levels-AllNodes :
    (sha : Sha256) (fuel : ℕ) (level : List Bytes)
    → IsSha256 sha
    → All IsNode level
    → AllNodes (build_levels sha fuel level)
unfolding build_levels
build_levels-AllNodes sha zero level laws h = (h, tt)
build_levels-AllNodes sha (suc fuel) level laws h = elim (Bool-cases (ltb 1 (length level))) [
  | inl e ↦ rw e (h, build_levels-AllNodes sha fuel _ laws (next_level-IsNode sha laws level))
  | inr e ↦ rw e (h, tt)
]

entries_more :
    (level : List Bytes) (levels : List (List Bytes)) (i : ℕ)
    → ltb 1 (length level) ≡ true
    → entries (level ∷ levels) i ≡ take 20 (sibling level i) ∷ entries levels (i / 2)
unfolding entries
entries_more level levels i e = rw e refl

entries_one :
    (level : List Bytes) (levels : List (List Bytes)) (i : ℕ)
    → ltb 1 (length level) ≡ false
    → entries (level ∷ levels) i ≡ []
unfolding entries
entries_one level levels i e = rw e refl

single_node :
    (level : List Bytes) (i : ℕ) (root : Bytes)
    → i < length level
    → length level ≤ 1
    → some level ≡ some (root ∷ [])
    → ◌≡◌ {A = ℕ × Bytes} (i, get_or level i []) (0, root)
single_node [] i root h one e = elim h [ ]
single_node (a ∷ []) zero root h one e = cc
single_node (a ∷ []) (suc i) root h one e = absurd (omega arith)
single_node (a ∷ b ∷ rest) i root h one e = absurd (omega arith)

climb-one :
    (sha : Sha256) (fuel : ℕ) (level : List Bytes) (i : ℕ) (root : Bytes)
    → i < length level
    → ltb 1 (length level) ≡ false
    → last_elem? (build_levels sha fuel level) ≡ some (root ∷ [])
    → climb sha i (get_or level i []) (entries (build_levels sha fuel level) i) ≡ (0, root)
climb-one sha fuel level i root h e top =
    let top' : some level ≡ some (root ∷ []) =
      unfold last_elem? in rw (build_levels_one sha fuel level e) at top in
    rw (build_levels_one sha fuel level e, entries_one level [] i e)
      (unfold climb in single_node level i root h (ltb-false _ _ e) top')

-- From a node the entries of its proof lead to the root, at index 0.
climb-entries :
    (sha : Sha256) (fuel : ℕ) (level : List Bytes) (i : ℕ) (root : Bytes)
    → i < length level
    → length level ≤ suc fuel
    → last_elem? (build_levels sha fuel level) ≡ some (root ∷ [])
    → climb sha i (get_or level i []) (entries (build_levels sha fuel level) i) ≡ (0, root)
climb-entries sha zero level i root h enough top =
    climb-one sha zero level i root h (le→ltb_false 1 (length level) enough) top
climb-entries sha (suc fuel) level i root h enough top = elim (Bool-cases (ltb 1 (length level))) [
  | inr e ↦ climb-one sha (suc fuel) level i root h e top
  | inl e ↦
      let above = next_level sha level in
      let many = ltb→lt _ _ e in
      let top' : last_elem? (build_levels sha fuel above) ≡ some (root ∷ []) =
        sym (last_elem?-build_levels sha fuel level above)
        ∙ rw (build_levels_more sha fuel level e) at top in
      rw (build_levels_more sha fuel level e, entries_more level (build_levels sha fuel above) i e)
        (climb-step sha level i _ (next_level_at sha level i h) (
          climb-entries sha fuel above (i / 2) root (omega (arith, length-next_level sha level))
            (omega (arith, length-next_level sha level)) top'))
]
  where
    climb-step :
        (sha : Sha256) (level : List Bytes) (i : ℕ) (es : List Bytes) {node : Bytes} {r : ℕ × Bytes}
        → node ≡ parent sha i (get_or level i []) (take 20 (sibling level i))
        → climb sha (i / 2) node es ≡ r
        → climb sha i (get_or level i []) (take 20 (sibling level i) ∷ es) ≡ r
    climb-step sha level i es e h = unfold climb in rw (← e) h

top_node_lem :
    (levels : List (List Bytes)) (root : Bytes)
    → last_elem? levels ≡ some (root ∷ [])
    → top_node levels ≡ ok root
unfolding top_node
top_node_lem levels root e = rw (top_node, e) refl

-- For any leaves but none `build_tree` returns a tree, within its fuel, and the proof that
-- `merkle_proof` writes for any leaf takes `compute_merkle_root` from that leaf to the tree's root.
pub merkle_round_trip :
    (sha : Sha256) (leaves : List Bytes)
    → IsSha256 sha
    → All IsNode leaves
    → 0 < length leaves
    → (tree : Tree) × (build_tree sha leaves ≡ ok tree)
      × ((i : ℕ)
          → i < length leaves
          → compute_merkle_root sha i (get_or leaves i []) (merkle_proof tree i) ≡ ok tree.root)
unfolding build_tree merkle_proof compute_merkle_root
merkle_round_trip sha leaves laws nodes pos =
    let n = length leaves in
    let levels = build_levels sha n leaves in
    let (root, top) = has_top sha n leaves pos (omega arith) in
    let all_nodes = build_levels-AllNodes sha n leaves laws nodes in
    (
      record { levels = levels; root = root },
      rw (top_node_lem levels root top) refl,
      λ i h.
          let es = entries levels i in
          let es_entries = entries-IsEntry levels i all_nodes in
          let aligned : length (join es) % 20 ≡ 0 = omega (arith, length-join es es_entries) in
          rw
            (
              proof_from-join levels i,
              aligned,
              chunks_exact-join es es_entries,
              climb-entries sha n leaves i root h (omega arith) top,
            )
            refl,
    )
