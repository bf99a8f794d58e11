-- ===== src/LtHash/Group.antt =====
-- `mix_in`, `mix_out` and `identity` are an abelian group on the values of the type. Equations are
-- proved limb by limb, where they are linear arithmetic.
use lattica.Prelude.{
  ℕ, zero, suc, ◌^◌, ◌<◌, true, List, [], ◌∷◌, ◌≡◌, refl, ap, ap₂, ◌↔◌, arith, length, get_or,
  replicate, length-replicate, All, All-replicate,
}
use lattica.LtHash.{
  LtHash, IsLtHash, IsU16, wrapping_add, wrapping_sub, zip_with, n_limbs, identity, mix_in, mix_out,
  all_zero, is_identity,
}

-- Limb `i`, and 0 past the end.
abbrev pub limb : LtHash → ℕ → ℕ
limb h i = get_or h.limbs i 0

list_ext :
    (xs ys : List ℕ) → length xs ≡ length ys → ((i : ℕ) → get_or xs i 0 ≡ get_or ys i 0) → xs ≡ ys
list_ext [] [] h e = refl
list_ext [] (y ∷ ys) h e = absurd (omega arith)
list_ext (x ∷ xs) [] h e = absurd (omega arith)
list_ext (x ∷ xs) (y ∷ ys) h e =
    ap₂ (λ a r. a ∷ r) (e 0) (list_ext xs ys (omega arith) (λ i. e (suc i)))

pub LtHash_ext : {a b : LtHash} → IsLtHash a → IsLtHash b → ((i : ℕ) → limb a i ≡ limb b i) → a ≡ b
LtHash_ext {a} {b} va vb e =
    ap (λ t. record { limbs = t }) (list_ext a.limbs b.limbs (omega (arith, va.count, vb.count)) e)

get_or-lt : (xs : List ℕ) (i : ℕ) → All IsU16 xs → get_or xs i 0 < 2 ^ 16
get_or-lt [] i h = omega arith
get_or-lt (x ∷ xs) zero h = h.0
get_or-lt (x ∷ xs) (suc i) h = get_or-lt xs i h.1

pub limb-lt : (h : LtHash) (i : ℕ) → IsLtHash h → limb h i < 2 ^ 16
limb-lt h i v = get_or-lt h.limbs i v.limb_range

length-zip_with :
    (f : ℕ → ℕ → ℕ) (xs ys : List ℕ) → length xs ≡ length ys → length (zip_with f xs ys) ≡ length xs
unfolding zip_with
length-zip_with f [] ys h = refl
length-zip_with f (x ∷ xs) [] h = absurd (omega arith)
length-zip_with f (x ∷ xs) (y ∷ ys) h = ap suc (length-zip_with f xs ys (omega arith))

All-zip_with :
    (f : ℕ → ℕ → ℕ) → ((a b : ℕ) → IsU16 (f a b)) → (xs ys : List ℕ) → All IsU16 (zip_with f xs ys)
unfolding zip_with
All-zip_with f h [] ys = tt
All-zip_with f h (x ∷ xs) [] = tt
All-zip_with f h (x ∷ xs) (y ∷ ys) = (h x y, All-zip_with f h xs ys)

get_or-zip_with :
    (f : ℕ → ℕ → ℕ)
    → f 0 0 ≡ 0
    → (xs ys : List ℕ) (i : ℕ) → length xs ≡ length ys
    → get_or (zip_with f xs ys) i 0 ≡ f (get_or xs i 0) (get_or ys i 0)
unfolding zip_with
get_or-zip_with f z [] [] i h = rw z
get_or-zip_with f z [] (y ∷ ys) i h = absurd (omega arith)
get_or-zip_with f z (x ∷ xs) [] i h = absurd (omega arith)
get_or-zip_with f z (x ∷ xs) (y ∷ ys) zero h = refl
get_or-zip_with f z (x ∷ xs) (y ∷ ys) (suc i) h = get_or-zip_with f z xs ys i (omega arith)

get_or-replicate : (n i : ℕ) → get_or (replicate {A = ℕ} n 0) i 0 ≡ 0
get_or-replicate zero i = refl
get_or-replicate (suc n) zero = refl
get_or-replicate (suc n) (suc i) = get_or-replicate n i

pub identity-IsLtHash : IsLtHash identity
unfolding identity
identity-IsLtHash = record {
  count = length-replicate {A = ℕ} n_limbs 0;
  limb_range = All-replicate IsU16 n_limbs 0 (omega arith);
}

module _ {a b : LtHash} (va : IsLtHash a) (vb : IsLtHash b) where
  same_count : length a.limbs ≡ length b.limbs
  same_count = omega (arith, va.count, vb.count)

  pub mix_in-IsLtHash : IsLtHash (mix_in a b)
  unfolding mix_in
  mix_in-IsLtHash = record {
    count = omega (arith, length-zip_with wrapping_add a.limbs b.limbs same_count, va.count);
    limb_range = All-zip_with wrapping_add (λ x y. omega arith) a.limbs b.limbs;
  }

  pub mix_out-IsLtHash : IsLtHash (mix_out a b)
  unfolding mix_out
  mix_out-IsLtHash = record {
    count = omega (arith, length-zip_with wrapping_sub a.limbs b.limbs same_count, va.count);
    limb_range = All-zip_with wrapping_sub (λ x y. omega arith) a.limbs b.limbs;
  }

  pub limb-mix_in : (i : ℕ) → limb (mix_in a b) i ≡ wrapping_add (limb a i) (limb b i)
  unfolding mix_in
  limb-mix_in i = get_or-zip_with wrapping_add refl a.limbs b.limbs i same_count

  pub limb-mix_out : (i : ℕ) → limb (mix_out a b) i ≡ wrapping_sub (limb a i) (limb b i)
  unfolding mix_out
  limb-mix_out i = get_or-zip_with wrapping_sub refl a.limbs b.limbs i same_count

pub limb-identity : (i : ℕ) → limb identity i ≡ 0
unfolding identity
limb-identity i = get_or-replicate n_limbs i

-- On values of the type the two operations undo one another, in either order.
pub mix_inverse :
    (a b : LtHash)
    → IsLtHash a
    → IsLtHash b
    → (mix_out (mix_in a b) b ≡ a) × (mix_in (mix_out a b) b ≡ a)
mix_inverse a b va vb =
    let vi = mix_in-IsLtHash va vb in
    let vo = mix_out-IsLtHash va vb in
    (
      LtHash_ext (mix_out-IsLtHash vi vb) va λ i.
          omega (arith, limb-mix_out vi vb i, limb-mix_in va vb i, limb-lt a i va, limb-lt b i vb),
      LtHash_ext (mix_in-IsLtHash vo vb) va λ i.
          omega (arith, limb-mix_in vo vb i, limb-mix_out va vb i, limb-lt a i va, limb-lt b i vb),
    )

-- On values of the type mixing in is commutative and associative, and mixing `identity` in or out
-- changes nothing.
pub mix_in_laws :
    (a b c : LtHash)
    → IsLtHash a
    → IsLtHash b
    → IsLtHash c
    → (mix_in a b ≡ mix_in b a)
      × (mix_in (mix_in a b) c ≡ mix_in a (mix_in b c))
      × (mix_in a identity ≡ a)
      × (mix_out a identity ≡ a)
mix_in_laws a b c va vb vc =
    let vab = mix_in-IsLtHash va vb in
    let vbc = mix_in-IsLtHash vb vc in
    let v0 = identity-IsLtHash in
    (
      LtHash_ext vab (mix_in-IsLtHash vb va)
          λ i. omega (arith, limb-mix_in va vb i, limb-mix_in vb va i),
      LtHash_ext (mix_in-IsLtHash vab vc) (mix_in-IsLtHash va vbc) λ i. omega (
        arith,
        limb-mix_in vab vc i,
        limb-mix_in va vb i,
        limb-mix_in va vbc i,
        limb-mix_in vb vc i,
      ),
      LtHash_ext (mix_in-IsLtHash va v0) va
          λ i. omega (arith, limb-mix_in va v0 i, limb-identity i, limb-lt a i va),
      LtHash_ext (mix_out-IsLtHash va v0) va
          λ i. omega (arith, limb-mix_out va v0 i, limb-identity i, limb-lt a i va),
    )

all_zero_iff : (n : ℕ) (xs : List ℕ) → length xs ≡ n → (all_zero xs ≡ true) ↔ (xs ≡ replicate n 0)
unfolding all_zero
all_zero_iff zero [] h = (λ e. refl, λ e. refl)
all_zero_iff (suc n) [] h = absurd (omega arith)
all_zero_iff zero (x ∷ xs) h = absurd (omega arith)
all_zero_iff (suc n) (x ∷ xs) h = ground (arith, all_zero_iff n xs)

-- On values of the type the test holds of the identity and of nothing else; so it tells whether a delta is empty.
pub is_identity_iff : (h : LtHash) → IsLtHash h → (is_identity h ≡ true) ↔ (h ≡ identity)
unfolding is_identity identity
is_identity_iff h v =
    let (to, from) = all_zero_iff n_limbs h.limbs v.count in
    (λ e. ap (λ t. record { limbs = t }) (to e), λ e. from (ap (λ (t : LtHash). t.limbs) e))
