-- ===== src/Prelude/Outcome.antt =====
-- Rust's `Result`, with a third case for a panic: an index or slice out of range, or an overflow in
-- a build that checks for it.
use Prim.Native.Nat.{ℕ, ◌-◌, ◌≤◌, ◌<◌}
use mathlib.Core.Path.{◌≡◌, refl}
use mathlib.Core.Logic.{◌⊎◌, inl, inr}
use mathlib.Core.Bool.{◌&&◌}
use mathlib.Core.List.{List}
use lattica.Prelude.Tests.{leb, le→leb, lt→leb_false, Bool-cases, if◌then◌else◌}
use lattica.Prelude.Lists.{length, take, drop}

pub data Outcome {ℓ κ} (E : Type ℓ) (A : Type κ) : Type (ℓ ⊔ κ) where
  ok : A → Outcome E A
  err : E → Outcome E A
  panic : Outcome E A

infixl 5 ◌>>=◌
abbrev pub ◌>>=◌ {ℓ κ μ} :
    {E : Type ℓ} {A : Type κ} {B : Type μ} → Outcome E A → (A → Outcome E B) → Outcome E B
panic >>= next = panic
err cause >>= next = err cause
ok x >>= next = next x

-- `&xs[a..b]`
unfoldable pub slice {ℓ κ} : {E : Type ℓ} {A : Type κ} → List A → ℕ → ℕ → Outcome E (List A)
slice xs a b = if leb a b && leb b (length xs) then ok (take (b - a) (drop a xs)) else panic

pub slice_lem {ℓ κ} :
    {E : Type ℓ} {A : Type κ} (xs : List A) (a b : ℕ)
    → a ≤ b
    → b ≤ length xs
    → slice {E = E} xs a b ≡ ok (take (b - a) (drop a xs))
unfolding slice
slice_lem xs a b h k = rw (le→leb a b h, le→leb b (length xs) k)

-- A slice that ends behind the list.
pub slice_out {ℓ κ} :
    {E : Type ℓ} {A : Type κ} (xs : List A) (a b : ℕ) → length xs < b → slice {E = E} xs a b ≡ panic
unfolding slice
slice_out xs a b h = elim (Bool-cases (leb a b)) [
  | inl e ↦ rw (e, lt→leb_false b (length xs) h) refl
  | inr e ↦ rw e refl
]

-- How a chain can end: where it panics, and what its first step returned where it succeeds.
module _ {ℓ κ μ} {E : Type ℓ} {A : Type κ} {B : Type μ} where
  pub >>=-eq-panic :
      (m : Outcome E A) (next : A → Outcome E B)
      → (m >>= next) ≡ panic
      → (m ≡ panic) ⊎ ((x : A) × (m ≡ ok x) × (next x ≡ panic))
  >>=-eq-panic panic next stuck = inl refl
  >>=-eq-panic (err cause) next stuck = cc
  >>=-eq-panic (ok x) next stuck = inr (x, refl, stuck)

  pub >>=-eq-ok :
      (m : Outcome E A) (next : A → Outcome E B) {y : B}
      → (m >>= next) ≡ ok y
      → (x : A) × (m ≡ ok x) × (next x ≡ ok y)
  >>=-eq-ok panic next done = cc
  >>=-eq-ok (err cause) next done = cc
  >>=-eq-ok (ok x) next done = (x, refl, done)

pub Outcome-cases {ℓ κ} :
    {E : Type ℓ} {A : Type κ} (m : Outcome E A)
    → ((x : A) × (m ≡ ok x)) ⊎ (((cause : E) × (m ≡ err cause)) ⊎ (m ≡ panic))
Outcome-cases (ok x) = inl (x, refl)
Outcome-cases (err cause) = inr (inl (cause, refl))
Outcome-cases panic = inr (inr refl)
