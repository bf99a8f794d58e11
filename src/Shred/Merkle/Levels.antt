-- ===== src/Shred/Merkle/Levels.antt =====
-- The levels of `build_tree`: what stands above a node, how long a level is, and its fuel.
use lattica.Prelude.{
  ℕ, zero, suc, ◌+◌, ◌-◌, ◌/◌, ◌%◌, ◌<◌, ◌≤◌, true, false, some, List, [], ◌∷◌, ltb, length, take,
  get_or, bit_xor, All, ◌≡◌, refl, inl, inr, Bool-cases, arith, ltb→lt, lt→ltb, le→ltb_false,
  ltb-false,
}
use lattica.Prelude.Bits.{xor_one}
use lattica.Prelude.Bytes.{Bytes}
use lattica.Shred.Merkle.{
  Sha256, IsSha256, hash_entries, parent, next_level, build_levels, last_elem?, sibling,
}

-- A node of the tree.
abbrev pub IsNode : Bytes → Type 0
IsNode n = length n ≡ 32

flip_step : (i : ℕ) → bit_xor (suc (suc i)) 1 ≡ suc (suc (bit_xor i 1))
flip_step i = ground (arith, xor_one (suc (suc i)), xor_one i)

sibling_step :
    (a b : Bytes) (rest : List Bytes) (i : ℕ)
    → i < length rest
    → sibling (a ∷ b ∷ rest) (suc (suc i)) ≡ sibling rest i
unfolding sibling
sibling_step a b rest i h =
    let last : suc (suc (length rest)) - 1 ≡ suc (suc (length rest - 1)) = omega arith in
    elim (Bool-cases (ltb (bit_xor i 1) (length rest))) [
      | inl e ↦
          rw
            (
              flip_step i,
              e,
              lt→ltb (suc (suc (bit_xor i 1))) (suc (suc (length rest)))
                  (omega (arith, ltb→lt _ _ e)),
            )
            refl
      | inr e ↦
          rw
            (
              flip_step i,
              e,
              le→ltb_false (suc (suc (bit_xor i 1))) (suc (suc (length rest)))
                  (omega (arith, ltb-false _ _ e)),
              last,
            )
            refl
    ]

-- One level: the parent that is computed from a node and its sibling stands above the node.
pub next_level_at :
    (sha : Sha256) (level : List Bytes) (i : ℕ)
    → i < length level
    → get_or (next_level sha level) (i / 2) []
      ≡ parent sha i (get_or level i []) (take 20 (sibling level i))
unfolding next_level parent
next_level_at sha [] i h = elim h [ ]
next_level_at sha (a ∷ []) zero h = unfold sibling in refl
next_level_at sha (a ∷ []) (suc i) h = absurd (omega arith)
next_level_at sha (a ∷ b ∷ rest) zero h =
    unfold sibling in rw (lt→ltb 1 (suc (suc (length rest))) (omega arith)) refl
next_level_at sha (a ∷ b ∷ rest) (suc zero) h =
    unfold sibling in rw (lt→ltb 0 (suc (suc (length rest))) (omega arith)) refl
next_level_at sha (a ∷ b ∷ rest) (suc (suc i)) h =
    let inside : i < length rest = omega arith in
    let half : suc (suc i) / 2 ≡ suc (i / 2) = omega arith in
    let parity : suc (suc i) % 2 ≡ i % 2 = omega arith in
    rw (sibling_step a b rest i inside, half, parity) (next_level_at sha rest i inside)

-- The length of the level above.
pub length-next_level :
    (sha : Sha256) (level : List Bytes) → length (next_level sha level) ≡ (length level + 1) / 2
unfolding next_level
length-next_level sha [] = refl
length-next_level sha (a ∷ []) = refl
length-next_level sha (a ∷ b ∷ rest) = omega (arith, length-next_level sha rest)

pub next_level-IsNode :
    (sha : Sha256) → IsSha256 sha → (level : List Bytes) → All IsNode (next_level sha level)
unfolding next_level hash_entries
next_level-IsNode sha laws [] = tt
next_level-IsNode sha laws (a ∷ []) = (laws.length-digest _, tt)
next_level-IsNode sha laws (a ∷ b ∷ rest) = (laws.length-digest _, next_level-IsNode sha laws rest)

get_or-IsNode :
    (level : List Bytes) (i : ℕ) → All IsNode level → i < length level → IsNode (get_or level i [])
get_or-IsNode [] i h lt = elim lt [ ]
get_or-IsNode (a ∷ level) zero h lt = h.0
get_or-IsNode (a ∷ level) (suc i) h lt = get_or-IsNode level i h.1 (omega arith)

pub sibling-IsNode :
    (level : List Bytes) (i : ℕ) → All IsNode level → 0 < length level → IsNode (sibling level i)
unfolding sibling
sibling-IsNode level i h pos = elim (Bool-cases (ltb (bit_xor i 1) (length level))) [
  | inl e ↦ rw e (get_or-IsNode level (bit_xor i 1) h (ltb→lt _ _ e))
  | inr e ↦ rw e (get_or-IsNode level (length level - 1) h (omega arith))
]

pub build_levels_more :
    (sha : Sha256) (fuel : ℕ) (level : List Bytes)
    → ltb 1 (length level) ≡ true
    → build_levels sha (suc fuel) level ≡ level ∷ build_levels sha fuel (next_level sha level)
unfolding build_levels
build_levels_more sha fuel level e = rw e refl

pub build_levels_one :
    (sha : Sha256) (fuel : ℕ) (level : List Bytes)
    → ltb 1 (length level) ≡ false
    → build_levels sha fuel level ≡ level ∷ []
unfolding build_levels
build_levels_one sha zero level e = refl
build_levels_one sha (suc fuel) level e = rw e refl

pub last_elem?-build_levels :
    (sha : Sha256) (fuel : ℕ) (first level : List Bytes)
    → last_elem? (first ∷ build_levels sha fuel level) ≡ last_elem? (build_levels sha fuel level)
unfolding build_levels last_elem?
last_elem?-build_levels sha zero first level = refl
last_elem?-build_levels sha (suc fuel) first level = elim (Bool-cases (ltb 1 (length level))) [
  | inl e ↦ rw e refl
  | inr e ↦ rw e refl
]

-- With a round for each node but one the last level is the root alone.
pub has_top :
    (sha : Sha256) (fuel : ℕ) (level : List Bytes)
    → 0 < length level
    → length level ≤ suc fuel
    → (root : Bytes) × (last_elem? (build_levels sha fuel level) ≡ some (root ∷ []))
has_top sha fuel [] pos enough = absurd (omega arith)
has_top sha fuel (a ∷ []) pos enough =
    (a, rw (build_levels_one sha fuel (a ∷ []) refl) (unfold last_elem? in refl))
has_top sha zero (a ∷ b ∷ rest) pos enough = absurd (omega arith)
has_top sha (suc fuel) (a ∷ b ∷ rest) pos enough =
    let level : List Bytes = a ∷ b ∷ rest in
    let more : ltb 1 (length level) ≡ true = lt→ltb 1 (suc (suc (length rest))) (omega arith) in
    let above = next_level sha level in
    let (root, top) =
      has_top sha fuel above (omega (arith, length-next_level sha level))
        (omega (arith, length-next_level sha level)) in
    (
      root,
      rw (build_levels_more sha fuel level more, last_elem?-build_levels sha fuel level above) top,
    )
