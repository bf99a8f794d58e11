-- ===== src/Prelude/Strings.antt =====
-- Rust's `str` operations on byte strings: `starts_with`, `find`, `contains`, `lines` and `trim`, on
-- ASCII text.
use lattica.Prelude.{
  ℕ, suc, ◌≤◌, Bool, true, false, ◌&&◌, ◌||◌, Option, none, some, List, [], ◌∷◌, ◌++◌, ◌==◌,
  if◌then◌else◌, length, Bool-cases, inl, inr, ◌≡◌, refl, sym, ap, ap₂, ◌∙◌, length-append, arith,
}
use mathlib.Core.List.{append_assoc}
use mathlib.Core.Option.{map as option_map}
use lattica.Prelude.Bytes.{Bytes}

unfoldable pub starts_with : Bytes → Bytes → Bool
starts_with [] ys = true
starts_with (x ∷ xs) [] = false
starts_with (x ∷ xs) (y ∷ ys) = x == y && starts_with xs ys

-- The offset of the first occurrence.
unfoldable pub find : Bytes → Bytes → Option ℕ
find pat [] = if starts_with pat [] then some 0 else none
find pat (y ∷ ys) = if starts_with pat (y ∷ ys) then some 0 else option_map suc (find pat ys)

unfoldable pub contains : Bytes → Bytes → Bool
contains pat [] = starts_with pat []
contains pat (y ∷ ys) = starts_with pat (y ∷ ys) || contains pat ys

unfoldable pub is_whitespace : ℕ → Bool
is_whitespace b = b == 32 || (b == 9 || (b == 10 || (b == 11 || (b == 12 || b == 13))))

unfoldable pub trim_start : Bytes → Bytes
trim_start [] = []
trim_start (b ∷ bs) = let rest = trim_start bs in if is_whitespace b then rest else b ∷ bs

-- A byte that is not whitespace keeps all before it.
unfoldable pub trim_end : Bytes → Bytes
trim_end [] = []
trim_end (b ∷ bs) = elim (trim_end bs) [
  | [] ↦ if is_whitespace b then [] else b ∷ []
  | c ∷ rest ↦ b ∷ c ∷ rest
]

unfoldable pub trim : Bytes → Bytes
trim s = trim_end (trim_start s)

-- A line is begun by its first byte; a line feed ends it.
unfoldable pub add_byte : ℕ → List Bytes → List Bytes
add_byte b [] = (b ∷ []) ∷ []
add_byte b (l ∷ ls) = (b ∷ l) ∷ ls

-- `lines` followed by `trim`, under which the carriage return at the end of a line makes no difference.
unfoldable pub split_lines : Bytes → List Bytes
split_lines [] = []
split_lines (b ∷ bs) = let rest = split_lines bs in if b == 10 then [] ∷ rest else add_byte b rest

-- A test for a pattern at the start looks at no more bytes than the pattern has.
pub starts_with-append :
    (pat xs k m : Bytes)
    → length pat ≤ length xs
    → starts_with pat (xs ++ k) ≡ starts_with pat (xs ++ m)
unfolding starts_with
starts_with-append [] xs k m h = refl
starts_with-append (p ∷ pat) [] k m h = elim h [ ]
starts_with-append (p ∷ pat) (x ∷ xs) k m h =
    ap (λ b. p == x && b) (starts_with-append pat xs k m (omega arith))

pub starts_with_self : (pat k : Bytes) → starts_with pat (pat ++ k) ≡ true
unfolding starts_with
starts_with_self [] k = refl
starts_with_self (p ∷ pat) k =
    let e : (p == p) ≡ true = ground arith in rw e (starts_with_self pat k)

find-here : (pat ys : Bytes) → starts_with pat ys ≡ true → find pat ys ≡ some 0
unfolding find
find-here pat [] e = rw e refl
find-here pat (y ∷ ys) e = rw (find, e) refl

-- What stands behind the pattern has no part in where it is found first.
pub find-append : (pat xs k m : Bytes) → find pat (xs ++ (pat ++ k)) ≡ find pat (xs ++ (pat ++ m))
unfolding find
find-append pat [] k m =
    find-here pat (pat ++ k) (starts_with_self pat k)
    ∙ sym (find-here pat (pat ++ m) (starts_with_self pat m))
find-append pat (x ∷ xs) k m =
    ap₂ (λ b o. if b then some 0 else option_map suc o)
      (ap (λ t. starts_with pat (x ∷ t)) (sym (append_assoc xs pat k))
        ∙ starts_with-append pat (x ∷ (xs ++ pat)) k m (omega (arith, length-append xs pat))
        ∙ ap (λ t. starts_with pat (x ∷ t)) (append_assoc xs pat m))
      (find-append pat xs k m)

-- The pattern is found, no later than where it stands.
pub find-found :
    (pat xs k : Bytes) → (i : ℕ) × (find pat (xs ++ (pat ++ k)) ≡ some i) × (i ≤ length xs)
unfolding find
find-found pat [] k = (0, find-here pat (pat ++ k) (starts_with_self pat k), omega arith)
find-found pat (x ∷ xs) k = elim (Bool-cases (starts_with pat (x ∷ (xs ++ (pat ++ k))))) [
  | inl e ↦ (0, rw (find, e) refl, omega arith)
  | inr e ↦ let (i, at, h) = find-found pat xs k in (suc i, rw (find, e, at) refl, omega (arith, h))
]
