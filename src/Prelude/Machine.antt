-- ===== src/Prelude/Machine.antt =====
-- Exit codes, `u64` arithmetic and strings of the programs.
use Prim.Native.Char.{code}
use Prim.Native.String.{String}
use lattica.Prelude.{
  ℕ, ◌+◌, ◌-◌, ◌*◌, ◌%◌, ◌^◌, ◌≤◌, ◌<◌, Bool, true, false, ◌&&◌, Option, none, some, [], ◌∷◌, ◌++◌,
  leb, ltb, ◌==◌, ==_iff, if◌then◌else◌, lt→ltb, le→leb, ◌≡◌, refl, ap₂, Bool-cases, inl, inr,
}
use lattica.Prelude.Bytes.{Bytes}
use lattica.Prelude.Outcome.{Outcome, ok, panic}

-- `ExitCode::SUCCESS`, `ExitCode::FAILURE` and `ExitCode::from`.
pub data ExitCode : Type 0 where
  success : ExitCode
  failure : ExitCode
  code_of : ℕ → ExitCode

-- The bytes of a string of ASCII characters.
abbrev pub ascii : String → Bytes
ascii String.[] = []
ascii (String.◌∷◌ c s) = code c ∷ ascii s

-- `==` on strings.
unfoldable pub str_eq : Bytes → Bytes → Bool
str_eq [] [] = true
str_eq [] (y ∷ ys) = false
str_eq (x ∷ xs) [] = false
str_eq (x ∷ xs) (y ∷ ys) = x == y && str_eq xs ys

pub str_eq-true : (xs ys : Bytes) → str_eq xs ys ≡ true → xs ≡ ys
unfolding str_eq
str_eq-true [] [] h = refl
str_eq-true [] (y ∷ ys) h = cc
str_eq-true (x ∷ xs) [] h = cc
str_eq-true (x ∷ xs) (y ∷ ys) h = elim (Bool-cases (x == y)) [
  | inl e ↦ ap₂ (λ z zs. z ∷ zs) ((==_iff x y).0 e) (str_eq-true xs ys (rw e at h))
  | inr e ↦ cc (rw e at h)
]

-- `strip_prefix`; `none` where the string does not start so.
unfoldable pub strip_prefix : Bytes → Bytes → Option Bytes
strip_prefix [] ys = some ys
strip_prefix (x ∷ xs) [] = none
strip_prefix (x ∷ xs) (y ∷ ys) = let rest = strip_prefix xs ys in if x == y then rest else none

pub strip_prefix-append : (xs ys : Bytes) → strip_prefix xs (xs ++ ys) ≡ some ys
unfolding strip_prefix
strip_prefix-append [] ys = refl
strip_prefix-append (x ∷ xs) ys = rw ((==_iff x x).1 refl) (strip_prefix-append xs ys)

-- `a + b`, `a - b` and `a * b` on a `u64`.
unfoldable pub add_u64 {ℓ} : {E : Type ℓ} → Bool → ℕ → ℕ → Outcome E ℕ
add_u64 overflow_checks a b =
    if ltb (a + b) (2 ^ 64)
    then ok (a + b)
    else if overflow_checks
    then panic
    else ok ((a + b) % 2 ^ 64)

unfoldable pub sub_u64 {ℓ} : {E : Type ℓ} → Bool → ℕ → ℕ → Outcome E ℕ
sub_u64 overflow_checks a b =
    if leb b a
    then ok (a - b)
    else if overflow_checks
    then panic
    else ok ((a + 2 ^ 64 - b) % 2 ^ 64)

unfoldable pub mul_u64 {ℓ} : {E : Type ℓ} → Bool → ℕ → ℕ → Outcome E ℕ
mul_u64 overflow_checks a b =
    if ltb (a * b) (2 ^ 64)
    then ok (a * b)
    else if overflow_checks
    then panic
    else ok ((a * b) % 2 ^ 64)

pub add_u64_lem {ℓ} :
    {E : Type ℓ} (c : Bool) (a b : ℕ) → a + b < 2 ^ 64 → add_u64 {E = E} c a b ≡ ok (a + b)
unfolding add_u64
add_u64_lem c a b h = rw (lt→ltb (a + b) (2 ^ 64) h) refl

pub sub_u64_lem {ℓ} : {E : Type ℓ} (c : Bool) (a b : ℕ) → b ≤ a → sub_u64 {E = E} c a b ≡ ok (a - b)
unfolding sub_u64
sub_u64_lem c a b h = rw (le→leb b a h) refl

pub mul_u64_lem {ℓ} :
    {E : Type ℓ} (c : Bool) (a b : ℕ) → a * b < 2 ^ 64 → mul_u64 {E = E} c a b ≡ ok (a * b)
unfolding mul_u64
mul_u64_lem c a b h = rw (lt→ltb (a * b) (2 ^ 64) h) refl
