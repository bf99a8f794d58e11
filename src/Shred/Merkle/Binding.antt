-- ===== src/Shred/Merkle/Binding.antt =====
-- A root commits to its leaves: two leaves with proofs of one length for one index and one root are
-- the same, or the proofs show a collision of the truncated hash. And the index is below the number
-- of leaves that a proof of that length can have.
use native.Mathlib.Decide.{ℕ_discrete}
use native.Mathlib.Nat.{pow-suc}
use lattica.Prelude.{
  ℕ, zero, suc, ◌*◌, ◌/◌, ◌%◌, ◌^◌, ◌<◌, ◌≤◌, List, [], ◌∷◌, ◌++◌, ◌==◌, length, length-take,
  length-drop, take, drop, append_inj, ◌≡◌, ◌≢◌, refl, sym, ap, ◌∙◌, ◌⊎◌, inl, inr, Bool-cases,
  arith, ==_iff,
}
use lattica.Prelude.Bytes.{Bytes}
use lattica.Prelude.Outcome.{ok}
use lattica.Shred.Merkle.{
  Sha256, IsSha256, hash_leaf, hash_entries, merkle_hash_prefix_leaf, merkle_hash_prefix_node,
  chunks_of, chunks_exact, parent, climb, compute_merkle_root,
}

-- Two messages with the same first 20 bytes of their digests.
pub record Collision (sha : Sha256) : Type 0 where
  pub left : Bytes
  pub right : Bytes
  pub differ : left ≢ right
  pub same_digest : take 20 (sha left) ≡ take 20 (sha right)

Bytes-discrete : Discrete Bytes
Bytes-discrete = hlevel ℕ_discrete

same_or_Collision :
    (sha : Sha256) (m n : Bytes) → take 20 (sha m) ≡ take 20 (sha n) → (m ≡ n) ⊎ Collision sha
same_or_Collision sha m n e = elim (Bytes-discrete m n) [
  | yes p ↦ inl p
  | no p ↦ inr (record { left = m; right = n; differ = p; same_digest = e })
]

hash_entries_inj :
    (sha : Sha256) (a b c d : Bytes)
    → length a ≡ length c
    → take 20 (hash_entries sha a b) ≡ take 20 (hash_entries sha c d)
    → ((a ≡ c) × (b ≡ d)) ⊎ Collision sha
unfolding hash_entries
hash_entries_inj sha a b c d h e =
    elim (same_or_Collision sha (merkle_hash_prefix_node ++ (a ++ b))
      (merkle_hash_prefix_node ++ (c ++ d)) e) [
        | inl p ↦
            inl (
              append_inj a c h
                (append_inj merkle_hash_prefix_node merkle_hash_prefix_node refl p).1)
        | inr x ↦ inr x
      ]

-- One level up: equal parents come from equal nodes.
parent_inj :
    (sha : Sha256) (i : ℕ) (a b e f : Bytes)
    → length (take 20 a) ≡ length (take 20 b)
    → length e ≡ length f
    → take 20 (parent sha i a e) ≡ take 20 (parent sha i b f)
    → (take 20 a ≡ take 20 b) ⊎ Collision sha
unfolding parent
parent_inj sha i a b e f ha he p = elim (Bool-cases (i % 2 == 0)) [
  | inl even ↦ elim (hash_entries_inj sha (take 20 a) e (take 20 b) f ha (rw even at p)) [
    | inl q ↦ inl q.0
    | inr x ↦ inr x
  ]
  | inr odd ↦ elim (hash_entries_inj sha e (take 20 a) f (take 20 b) he (rw odd at p)) [
    | inl q ↦ inl q.1
    | inr x ↦ inr x
  ]
]

-- Both lists have entries of 20 bytes, and equally many.
abbrev SameShape : List Bytes → List Bytes → Type 0
SameShape [] [] = Unit
SameShape [] (f ∷ fs) = ⊥
SameShape (e ∷ es) [] = ⊥
SameShape (e ∷ es) (f ∷ fs) = (length e ≡ length f) × SameShape es fs

chunks_of-SameShape :
    (k : ℕ) (p q : Bytes)
    → k * 20 ≤ length p
    → k * 20 ≤ length q
    → SameShape (chunks_of k 20 p) (chunks_of k 20 q)
unfolding chunks_of
chunks_of-SameShape zero p q hp hq = tt
chunks_of-SameShape (suc k) p q hp hq = (
  omega (arith, length-take 20 p, length-take 20 q),
  chunks_of-SameShape k (drop 20 p) (drop 20 q) (omega (arith, length-drop 20 p))
      (omega (arith, length-drop 20 q)),
)

module _ (sha : Sha256) (digest : (m : Bytes) → length (sha m) ≡ 32) where
  cut-length : (a : Bytes) → length a ≡ 32 → length (take 20 a) ≡ 20
  cut-length a h = omega (arith, length-take 20 a)

  length-parent : (i : ℕ) (a e : Bytes) → length (parent sha i a e) ≡ 32
  unfolding parent hash_entries
  length-parent i a e = elim (Bool-cases (i % 2 == 0)) [
    | inl even ↦ rw even (digest _)
    | inr odd ↦ rw odd (digest _)
  ]

  climb_inj :
      (i : ℕ) (a b : Bytes) (es fs : List Bytes)
      → length a ≡ 32
      → length b ≡ 32
      → SameShape es fs
      → (climb sha i a es).1 ≡ (climb sha i b fs).1
      → (take 20 a ≡ take 20 b) ⊎ Collision sha
  unfolding climb
  climb_inj i a b [] [] ha hb shape e = inl (ap (take 20) e)
  climb_inj i a b [] (f ∷ fs) ha hb shape e = absurd shape
  climb_inj i a b (x ∷ es) [] ha hb shape e = absurd shape
  climb_inj i a b (x ∷ es) (f ∷ fs) ha hb shape e =
      elim (climb_inj (i / 2) (parent sha i a x) (parent sha i b f) es fs (length-parent i a x)
        (length-parent i b f) shape.1 e) [
          | inl p ↦
              parent_inj sha i a b x f (omega (arith, cut-length a ha, cut-length b hb)) shape.0 p
          | inr x ↦ inr x
        ]

climb-index :
    (sha : Sha256) (i : ℕ) (a : Bytes) (es : List Bytes)
    → (climb sha i a es).0 ≡ 0
    → i < 2 ^ length es
unfolding climb
climb-index sha i a [] h = omega arith
climb-index sha i a (e ∷ es) h =
    let rest = climb-index sha (i / 2) (parent sha i a e) es h in
    omega (arith, pow-suc 2 (length es))

length-chunks_of : (k n : ℕ) (p : Bytes) → length (chunks_of k n p) ≡ k
unfolding chunks_of
length-chunks_of zero n p = refl
length-chunks_of (suc k) n p = ap suc (length-chunks_of k n (drop n p))

length-chunks_exact : (p : Bytes) → length (chunks_exact 20 p) ≡ length p / 20
unfolding chunks_exact
length-chunks_exact p = length-chunks_of (length p / 20) 20 p

chunks_exact-SameShape :
    (p q : Bytes) → length p ≡ length q → SameShape (chunks_exact 20 p) (chunks_exact 20 q)
unfolding chunks_exact
chunks_exact-SameShape p q same =
    let count : length q / 20 ≡ length p / 20 = ap (λ (t : ℕ). t / 20) (sym same) in
    rw count (chunks_of-SameShape (length p / 20) p q (omega arith) (omega arith))

-- What an accepted proof shows of its loop.
pub compute_merkle_root_inv :
    (sha : Sha256) (i : ℕ) (leaf proof root : Bytes)
    → compute_merkle_root sha i leaf proof ≡ ok root
    → (length proof % 20 ≡ 0) × (climb sha i leaf (chunks_exact 20 proof) ≡ (0, root))
unfolding compute_merkle_root
compute_merkle_root_inv sha i leaf proof root h = elim (Bool-cases (length proof % 20 == 0)) [
  | inl e ↦ elim (Bool-cases ((climb sha i leaf (chunks_exact 20 proof)).0 == 0)) [
    | inl z ↦ ((==_iff _ _).0 e, ground (arith, h, e, z))
    | inr z ↦ cc (rw (e, z) at h)
  ]
  | inr e ↦ cc (rw e at h)
]

-- The index of an accepted proof of `k` entries is below 2 ^ k.
pub compute_merkle_root-index :
    (sha : Sha256) (i : ℕ) (leaf proof root : Bytes)
    → compute_merkle_root sha i leaf proof ≡ ok root
    → i < 2 ^ (length proof / 20)
compute_merkle_root-index sha i leaf proof root h =
    let (aligned, e) = compute_merkle_root_inv sha i leaf proof root h in
    let bound = climb-index sha i leaf (chunks_exact 20 proof) (ap (λ (r : ℕ × Bytes). r.0) e) in
    rw (length-chunks_exact proof) at bound

-- Two messages whose leaves are accepted at one index, with proofs of one length, under one root are
-- the same message, or a collision of the truncated hash is given.
pub merkle_root_binds :
    (sha : Sha256) (i : ℕ) (m n p q root : Bytes)
    → IsSha256 sha
    → length p ≡ length q
    → compute_merkle_root sha i (hash_leaf sha m) p ≡ ok root
    → compute_merkle_root sha i (hash_leaf sha n) q ≡ ok root
    → (m ≡ n) ⊎ Collision sha
unfolding hash_leaf
merkle_root_binds sha i m n p q root laws same hp hq =
    let a = hash_leaf sha m in
    let b = hash_leaf sha n in
    let reach_p = (compute_merkle_root_inv sha i a p root hp).1 in
    let reach_q = (compute_merkle_root_inv sha i b q root hq).1 in
    let second = λ (r : ℕ × Bytes). r.1 in
    elim (climb_inj sha laws.length-digest i a b (chunks_exact 20 p) (chunks_exact 20 q)
      (laws.length-digest _) (laws.length-digest _) (chunks_exact-SameShape p q same)
      (ap second reach_p ∙ sym (ap second reach_q))) [
        | inr x ↦ inr x
        | inl e ↦
            elim (same_or_Collision sha (merkle_hash_prefix_leaf ++ m)
              (merkle_hash_prefix_leaf ++ n) e) [
                | inl w ↦ inl (append_inj merkle_hash_prefix_leaf merkle_hash_prefix_leaf refl w).1
                | inr x ↦ inr x
              ]
      ]
