-- ===== src/Liquidator/Ix/Ordering.antt =====
-- The set of accounts stays in strict order under insertion, and what is inserted is found.
use lattica.Prelude.{
  ℕ, List, [], ◌∷◌, ltb, lt→ltb, le→ltb_false, ltb-false, ltb→lt, ◌<◌, ◌==◌, ==_iff, All, ◌≡◌, ◌⊎◌,
  refl, sym, ap₂, inl, inr, Bool-cases, arith,
}
use lattica.Prelude.Bytes.{Bytes}
use lattica.Liquidator.Ix.{
  Order, less, equal, greater, cmp_nat, or_else, cmp_bytes, RemainingAccount, oracle_account,
  spot_account, perp_account, discriminant, pubkey_of, cmp, insert,
}

Order-cases : (o : Order) → (o ≡ less) ⊎ ((o ≡ equal) ⊎ (o ≡ greater))
Order-cases less = inl refl
Order-cases equal = inr (inl refl)
Order-cases greater = inr (inr refl)

cmp_nat-equal : (a b : ℕ) → cmp_nat a b ≡ equal → a ≡ b
cmp_nat-equal a b h = elim (Bool-cases (ltb a b)) [
  | inl e ↦ cc (rw e at h)
  | inr e ↦ elim (Bool-cases (a == b)) [ inl f ↦ (==_iff a b).0 f | inr f ↦ cc (rw (e, f) at h) ]
]

cmp_nat-greater : (a b : ℕ) → cmp_nat a b ≡ greater → cmp_nat b a ≡ less
cmp_nat-greater a b h = elim (Bool-cases (ltb a b)) [
  | inl e ↦ cc (rw e at h)
  | inr e ↦ elim (Bool-cases (a == b)) [
    | inl f ↦ cc (rw (e, f) at h)
    | inr f ↦
        let low = ltb-false a b e in
        let less_too : b < a = ground arith in rw (lt→ltb b a less_too) refl
  ]
]

cmp_nat-same : (a : ℕ) → cmp_nat a a ≡ equal
cmp_nat-same a = rw (le→ltb_false a a (omega arith), (==_iff a a).1 refl) refl

or_else-equal : (o p : Order) → or_else o p ≡ equal → (o ≡ equal) × (p ≡ equal)
or_else-equal less p h = cc
or_else-equal equal p h = (refl, h)
or_else-equal greater p h = cc

or_else-greater :
    (o p : Order) → or_else o p ≡ greater → (o ≡ greater) ⊎ ((o ≡ equal) × (p ≡ greater))
or_else-greater less p h = cc
or_else-greater equal p h = inr (refl, h)
or_else-greater greater p h = inl refl

cmp_bytes-equal : (a b : Bytes) → cmp_bytes a b ≡ equal → a ≡ b
unfolding cmp_bytes
cmp_bytes-equal [] [] h = refl
cmp_bytes-equal [] (y ∷ ys) h = cc
cmp_bytes-equal (x ∷ xs) [] h = cc
cmp_bytes-equal (x ∷ xs) (y ∷ ys) h =
    let (e, f) = or_else-equal (cmp_nat x y) (cmp_bytes xs ys) h in
    ap₂ (λ z zs. z ∷ zs) (cmp_nat-equal x y e) (cmp_bytes-equal xs ys f)

cmp_bytes-greater : (a b : Bytes) → cmp_bytes a b ≡ greater → cmp_bytes b a ≡ less
unfolding cmp_bytes
cmp_bytes-greater [] [] h = cc
cmp_bytes-greater [] (y ∷ ys) h = cc
cmp_bytes-greater (x ∷ xs) [] h = refl
cmp_bytes-greater (x ∷ xs) (y ∷ ys) h = elim (or_else-greater (cmp_nat x y) (cmp_bytes xs ys) h) [
  | inl e ↦ rw (cmp_nat-greater x y e) refl
  | inr (e, f) ↦
      let same : y ≡ x = sym (cmp_nat-equal x y e) in
      rw (same, cmp_nat-same x, cmp_bytes-greater xs ys f) refl
]

cmp-greater : (a b : RemainingAccount) → cmp a b ≡ greater → cmp b a ≡ less
unfolding cmp
cmp-greater a b h =
    elim (or_else-greater (cmp_nat (discriminant a) (discriminant b))
      (cmp_bytes (pubkey_of a) (pubkey_of b)) h) [
        | inl e ↦ rw (cmp_nat-greater (discriminant a) (discriminant b) e) refl
        | inr (e, f) ↦
            let same : discriminant b ≡ discriminant a =
              sym (cmp_nat-equal (discriminant a) (discriminant b) e) in
            rw
              (same, cmp_nat-same (discriminant a), cmp_bytes-greater (pubkey_of a) (pubkey_of b) f)
              refl
      ]

-- The order of two byte strings: at the first difference, or the shorter one first.
abbrev pub IsLess : Bytes → Bytes → Type 0
IsLess [] [] = ⊥
IsLess [] (y ∷ ys) = Unit
IsLess (x ∷ xs) [] = ⊥
IsLess (x ∷ xs) (y ∷ ys) = (x < y) ⊎ ((x ≡ y) × IsLess xs ys)

-- Oracles before spot markets before perp markets, each by address.
abbrev pub IsBefore : RemainingAccount → RemainingAccount → Type 0
IsBefore (oracle_account a) (oracle_account b) = IsLess a b
IsBefore (oracle_account a) (spot_account b v) = Unit
IsBefore (oracle_account a) (perp_account b v) = Unit
IsBefore (spot_account a w) (oracle_account b) = ⊥
IsBefore (spot_account a w) (spot_account b v) = IsLess a b
IsBefore (spot_account a w) (perp_account b v) = Unit
IsBefore (perp_account a w) (oracle_account b) = ⊥
IsBefore (perp_account a w) (spot_account b v) = ⊥
IsBefore (perp_account a w) (perp_account b v) = IsLess a b

-- The same kind and the same address.
abbrev pub SameKey : RemainingAccount → RemainingAccount → Type 0
SameKey (oracle_account a) (oracle_account b) = a ≡ b
SameKey (oracle_account a) (spot_account b v) = ⊥
SameKey (oracle_account a) (perp_account b v) = ⊥
SameKey (spot_account a w) (oracle_account b) = ⊥
SameKey (spot_account a w) (spot_account b v) = a ≡ b
SameKey (spot_account a w) (perp_account b v) = ⊥
SameKey (perp_account a w) (oracle_account b) = ⊥
SameKey (perp_account a w) (spot_account b v) = ⊥
SameKey (perp_account a w) (perp_account b v) = a ≡ b

cmp_nat-less : (a b : ℕ) → cmp_nat a b ≡ less → a < b
cmp_nat-less a b h = elim (Bool-cases (ltb a b)) [
  | inl e ↦ ltb→lt a b e
  | inr e ↦ elim (Bool-cases (a == b)) [ inl f ↦ cc (rw (e, f) at h) | inr f ↦ cc (rw (e, f) at h) ]
]

or_else-less : (o p : Order) → or_else o p ≡ less → (o ≡ less) ⊎ ((o ≡ equal) × (p ≡ less))
or_else-less less p h = inl refl
or_else-less equal p h = inr (refl, h)
or_else-less greater p h = cc

cmp_bytes-less : (a b : Bytes) → cmp_bytes a b ≡ less → IsLess a b
unfolding cmp_bytes
cmp_bytes-less [] [] h = cc
cmp_bytes-less [] (y ∷ ys) h = tt
cmp_bytes-less (x ∷ xs) [] h = cc
cmp_bytes-less (x ∷ xs) (y ∷ ys) h = elim (or_else-less (cmp_nat x y) (cmp_bytes xs ys) h) [
  | inl e ↦ inl (cmp_nat-less x y e)
  | inr (e, f) ↦ inr (cmp_nat-equal x y e, cmp_bytes-less xs ys f)
]

cmp-less : (a b : RemainingAccount) → cmp a b ≡ less → IsBefore a b
unfolding cmp discriminant pubkey_of
cmp-less (oracle_account a) (oracle_account b) h = cmp_bytes-less a b h
cmp-less (oracle_account a) (spot_account b v) h = tt
cmp-less (oracle_account a) (perp_account b v) h = tt
cmp-less (spot_account a w) (oracle_account b) h = cc
cmp-less (spot_account a w) (spot_account b v) h = cmp_bytes-less a b h
cmp-less (spot_account a w) (perp_account b v) h = tt
cmp-less (perp_account a w) (oracle_account b) h = cc
cmp-less (perp_account a w) (spot_account b v) h = cc
cmp-less (perp_account a w) (perp_account b v) h = cmp_bytes-less a b h

cmp-equal : (a b : RemainingAccount) → cmp a b ≡ equal → SameKey a b
unfolding cmp discriminant pubkey_of
cmp-equal (oracle_account a) (oracle_account b) h = cmp_bytes-equal a b h
cmp-equal (oracle_account a) (spot_account b v) h = cc
cmp-equal (oracle_account a) (perp_account b v) h = cc
cmp-equal (spot_account a w) (oracle_account b) h = cc
cmp-equal (spot_account a w) (spot_account b v) h = cmp_bytes-equal a b h
cmp-equal (spot_account a w) (perp_account b v) h = cc
cmp-equal (perp_account a w) (oracle_account b) h = cc
cmp-equal (perp_account a w) (spot_account b v) h = cc
cmp-equal (perp_account a w) (perp_account b v) h = cmp_bytes-equal a b h

SameKey-refl : (a : RemainingAccount) → SameKey a a
SameKey-refl (oracle_account a) = refl
SameKey-refl (spot_account a w) = refl
SameKey-refl (perp_account a w) = refl

-- Each account is less than the next one in the order of the set.
abbrev pub IsAscending : List RemainingAccount → Type 0
IsAscending [] = Unit
IsAscending (a ∷ []) = Unit
IsAscending (a ∷ b ∷ ra) = (cmp a b ≡ less) × IsAscending (b ∷ ra)

-- Each account is before the next one.
abbrev pub IsOrdered : List RemainingAccount → Type 0
IsOrdered [] = Unit
IsOrdered (a ∷ []) = Unit
IsOrdered (a ∷ b ∷ ra) = IsBefore a b × IsOrdered (b ∷ ra)

pub IsAscending-IsOrdered : (ra : List RemainingAccount) → IsAscending ra → IsOrdered ra
IsAscending-IsOrdered [] h = tt
IsAscending-IsOrdered (a ∷ []) h = tt
IsAscending-IsOrdered (a ∷ b ∷ ra) h = (cmp-less a b h.0, IsAscending-IsOrdered (b ∷ ra) h.1)

insert_less :
    (a b : RemainingAccount) (ra : List RemainingAccount)
    → cmp a b ≡ less
    → insert a (b ∷ ra) ≡ a ∷ b ∷ ra
unfolding insert
insert_less a b ra e = rw (insert, e) refl

insert_equal :
    (a b : RemainingAccount) (ra : List RemainingAccount)
    → cmp a b ≡ equal
    → insert a (b ∷ ra) ≡ b ∷ ra
unfolding insert
insert_equal a b ra e = rw (insert, e) refl

insert_greater :
    (a b : RemainingAccount) (ra : List RemainingAccount)
    → cmp a b ≡ greater
    → insert a (b ∷ ra) ≡ b ∷ insert a ra
unfolding insert
insert_greater a b ra e = rw (insert, e) refl

IsAscending-tail :
    (b : RemainingAccount) (ra : List RemainingAccount) → IsAscending (b ∷ ra) → IsAscending ra
IsAscending-tail b [] h = tt
IsAscending-tail b (c ∷ ra) h = h.1

below_insert :
    (a b : RemainingAccount) (ra : List RemainingAccount)
    → cmp b a ≡ less
    → IsAscending (b ∷ ra)
    → IsAscending (insert a ra)
    → IsAscending (b ∷ insert a ra)
below_insert a b [] low h k = unfold insert in (low, tt)
below_insert a b (c ∷ ra) low h k = elim (Order-cases (cmp a c)) [
  | inl e ↦ rw (insert_less a c ra e) (low, (e, h.1))
  | inr (inl e) ↦ rw (insert_equal a c ra e) h
  | inr (inr e) ↦ rw (insert_greater a c ra e) (h.0, rw (insert_greater a c ra e) at k)
]

pub insert-IsAscending :
    (a : RemainingAccount) (ra : List RemainingAccount) → IsAscending ra → IsAscending (insert a ra)
insert-IsAscending a [] h = unfold insert in tt
insert-IsAscending a (b ∷ ra) h = elim (Order-cases (cmp a b)) [
  | inl e ↦ rw (insert_less a b ra e) (e, h)
  | inr (inl e) ↦ rw (insert_equal a b ra e) h
  | inr (inr e) ↦ rw (insert_greater a b ra e) (
      below_insert a b ra (cmp-greater a b e) h (insert-IsAscending a ra (IsAscending-tail b ra h)))
]

abbrev pub IsIn : RemainingAccount → List RemainingAccount → Type 0
IsIn c [] = ⊥
IsIn c (b ∷ ra) = (c ≡ b) ⊎ IsIn c ra

pub insert-keeps :
    (a c : RemainingAccount) (ra : List RemainingAccount) → IsIn c ra → IsIn c (insert a ra)
insert-keeps a c [] h = elim h [ ]
insert-keeps a c (b ∷ ra) h = elim (Order-cases (cmp a b)) [
  | inl e ↦ rw (insert_less a b ra e) (inr h)
  | inr (inl e) ↦ rw (insert_equal a b ra e) h
  | inr (inr e) ↦
      rw (insert_greater a b ra e) (elim h [ inl s ↦ inl s | inr t ↦ inr (insert-keeps a c ra t) ])
]

-- A member of the set has the key of the account.
abbrev pub HasKey : RemainingAccount → List RemainingAccount → Type 0
HasKey a ra = (c : RemainingAccount) × SameKey a c × IsIn c ra

pub insert-HasKey : (a : RemainingAccount) (ra : List RemainingAccount) → HasKey a (insert a ra)
insert-HasKey a [] = unfold insert in (a, SameKey-refl a, inl refl)
insert-HasKey a (b ∷ ra) = elim (Order-cases (cmp a b)) [
  | inl e ↦ rw (insert_less a b ra e) (a, SameKey-refl a, inl refl)
  | inr (inl e) ↦ rw (insert_equal a b ra e) (b, cmp-equal a b e, inl refl)
  | inr (inr e) ↦ rw (insert_greater a b ra e) (let (c, s, m) = insert-HasKey a ra in (c, s, inr m))
]

pub insert-All :
    (P : RemainingAccount → Type 0) (a : RemainingAccount) (ra : List RemainingAccount)
    → P a
    → All P ra
    → All P (insert a ra)
insert-All P a [] h k = unfold insert in (h, tt)
insert-All P a (b ∷ ra) h k = elim (Order-cases (cmp a b)) [
  | inl e ↦ rw (insert_less a b ra e) (h, k)
  | inr (inl e) ↦ rw (insert_equal a b ra e) k
  | inr (inr e) ↦ rw (insert_greater a b ra e) (k.0, insert-All P a ra h k.1)
]
