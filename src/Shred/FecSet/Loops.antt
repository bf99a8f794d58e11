-- ===== src/Shred/FecSet/Loops.antt =====
-- The loops of `build_fec_set` where every round succeeds: what they return is a table.
use lattica.Prelude.{
  ℕ, zero, suc, ◌+◌, ◌<◌, ◌≤◌, List, [], ◌∷◌, ◌++◌, length, replicate, get_or, All, ◌≡◌, refl, ap,
  ap₂, ◌∙◌, arith,
}
use lattica.Prelude.Outcome.{Outcome, ok}
use lattica.Shred.FecSet.{map_indexed}

module _ {ℓ} {A : Type ℓ} where
  -- The values of `f` at the `n` indices from `i` on.
  abbrev pub tabulate : (ℕ → A) → ℕ → ℕ → List A
  tabulate f i zero = []
  tabulate f i (suc n) = f i ∷ tabulate f (suc i) n

  pub length-tabulate : (f : ℕ → A) (i n : ℕ) → length (tabulate f i n) ≡ n
  length-tabulate f i zero = refl
  length-tabulate f i (suc n) = ap suc (length-tabulate f (suc i) n)

  pub get_or-tabulate :
      (f : ℕ → A) (i n k : ℕ) (d : A) → k < n → get_or (tabulate f i n) k d ≡ f (i + k)
  get_or-tabulate f i zero k d h = elim h [ ]
  get_or-tabulate f i (suc n) zero d h = let e : i ≡ i + 0 = omega arith in ap f e
  get_or-tabulate f i (suc n) (suc k) d h =
      let e : suc i + k ≡ i + suc k = omega arith in
      get_or-tabulate f (suc i) n k d (omega arith) ∙ ap f e

  pub get_or-tabulate_0 : (f : ℕ → A) (n k : ℕ) (d : A) → k < n → get_or (tabulate f 0 n) k d ≡ f k
  get_or-tabulate_0 f n k d h =
      let e : 0 + k ≡ k = omega arith in get_or-tabulate f 0 n k d h ∙ ap f e

  pub tabulate_ext :
      (f g : ℕ → A) (i n : ℕ)
      → ((k : ℕ) → i ≤ k → k < i + n → f k ≡ g k)
      → tabulate f i n ≡ tabulate g i n
  tabulate_ext f g i zero h = refl
  tabulate_ext f g i (suc n) h =
      ap₂ (λ a r. a ∷ r) (h i (omega arith) (omega arith))
        (tabulate_ext f g (suc i) n (λ k lo hi. h k (omega arith) (omega arith)))

  pub tabulate-append :
      (f : ℕ → A) (i n m j : ℕ)
      → j ≡ i + n
      → tabulate f i n ++ tabulate f j m ≡ tabulate f i (n + m)
  tabulate-append f i zero m j e =
      let same : j ≡ i = omega arith in
      let count : zero + m ≡ m = omega arith in rw (same, count) refl
  tabulate-append f i (suc n) m j e =
      let count : suc n + m ≡ suc (n + m) = omega arith in
      rw count (ap (λ t. f i ∷ t) (tabulate-append f (suc i) n m j (omega arith)))

  -- A table from another start.
  pub tabulate_shift :
      (f g : ℕ → A) (i j n : ℕ)
      → ((k : ℕ) → k < n → f (i + k) ≡ g (j + k))
      → tabulate f i n ≡ tabulate g j n
  tabulate_shift f g i j zero h = refl
  tabulate_shift f g i j (suc n) h =
      let e : i ≡ i + 0 = omega arith in
      let e' : j + 0 ≡ j = omega arith in
      ap₂ (λ a r. a ∷ r) (ap f e ∙ h 0 (omega arith) ∙ ap g e')
        (tabulate_shift f g (suc i) (suc j) n (λ k lt.
          let p : suc i + k ≡ i + suc k = omega arith in
          let q : j + suc k ≡ suc j + k = omega arith in ap f p ∙ h (suc k) (omega arith) ∙ ap g q))

  pub All-tabulate {κ} :
      (P : A → Type κ) (f : ℕ → A) (i n : ℕ)
      → ((k : ℕ) → i ≤ k → k < i + n → P (f k))
      → All P (tabulate f i n)
  All-tabulate P f i zero h = tt
  All-tabulate P f i (suc n) h = (
    h i (omega arith) (omega arith),
    All-tabulate P f (suc i) n (λ k lo hi. h k (omega arith) (omega arith)),
  )

  pub replicate_as_table : (n i : ℕ) (a : A) → replicate n a ≡ tabulate (λ k. a) i n
  replicate_as_table zero i a = refl
  replicate_as_table (suc n) i a = ap (λ t. a ∷ t) (replicate_as_table n (suc i) a)

  -- A list of `n` elements is the table of its elements.
  pub list_as_table : (xs : List A) (d : A) → xs ≡ tabulate (λ k. get_or xs k d) 0 (length xs)
  list_as_table [] d = refl
  list_as_table (x ∷ xs) d =
      ap (λ t. x ∷ t)
        (list_as_table xs d
          ∙ tabulate_shift (λ k. get_or xs k d) (λ k. get_or (x ∷ xs) k d) 0 1 (length xs)
              (λ k lt.
                let a : 0 + k ≡ k = omega arith in
                let b : 1 + k ≡ suc k = omega arith in rw (a, b) refl))

module _ {ℓ κ μ} {E : Type ℓ} {A : Type κ} {B : Type μ} where
  pub map_indexed_table :
      (f : ℕ → A → Outcome E B) (g : ℕ → A) (h : ℕ → B) (i n : ℕ)
      → ((k : ℕ) → i ≤ k → k < i + n → f k (g k) ≡ ok (h k))
      → map_indexed f i (tabulate g i n) ≡ ok (tabulate h i n)
  unfolding map_indexed
  map_indexed_table f g h i zero e = refl
  map_indexed_table f g h i (suc n) e =
      rw
        (
          e i (omega arith) (omega arith),
          map_indexed_table f g h (suc i) n (λ k lo hi. e k (omega arith) (omega arith)),
        )
        refl
