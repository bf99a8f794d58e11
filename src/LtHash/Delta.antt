-- ===== src/LtHash/Delta.antt =====
-- What a slot's delta promises: added to the hash of the accounts before the slot it gives the hash
-- of the accounts after it, in whatever order the changes were fed.
use mathlib.Core.List.{Perm, Permᴰ, append_assoc}
use mathlib.Core.Logic.{∥∥₁_elim}
use native.Mathlib.Nat.{ℕ_set}
use lattica.Prelude.{
  ℕ, ◌+◌, ◌%◌, ◌-◌, ◌^◌, Option, none, some, List, [], ◌∷◌, ◌++◌, ◌≡◌, refl, ap, ap₂, ◌∙◌, arith,
}
use lattica.LtHash.{
  LtHash, IsLtHash, AccountForHash, Blake3, IsBlake3, SlotDelta, identity, mix_in, hash_account,
  mix, mix_old, mix_new, new_delta,
}
use lattica.LtHash.Group.{
  limb, limb-lt, LtHash_ext, limb-mix_in, limb-mix_out, mix_in-IsLtHash, mix_out-IsLtHash,
  identity-IsLtHash, limb-identity,
}
use lattica.LtHash.Encoding.{hash_account-IsLtHash}

-- An account's state before and after the slot; `none` where it did not exist.
abbrev pub Change : Type 0
Change = Option AccountForHash × Option AccountForHash

-- The hash of a set of accounts: the sum of their hashes.
pub accounts_hash : Blake3 → List AccountForHash → LtHash
accounts_hash b [] = identity
accounts_hash b (a ∷ rest) = mix_in (hash_account b a) (accounts_hash b rest)

abbrev pub present : Option AccountForHash → List AccountForHash
present none = []
present (some a) = a ∷ []

-- The accounts of the changes before the slot, and after it.
abbrev pub olds : List Change → List AccountForHash
olds [] = []
olds ((old, new) ∷ rest) = present old ++ olds rest

abbrev pub news : List Change → List AccountForHash
news [] = []
news ((old, new) ∷ rest) = present new ++ news rest

-- The builder fed with the changes one after the other.
unfoldable pub mix_all : Blake3 → SlotDelta → List Change → SlotDelta
mix_all b d [] = d
mix_all b d ((old, new) ∷ rest) = mix_all b (mix b d old new) rest

SlotDelta-set : IsSet SlotDelta
SlotDelta-set = hlevel ℕ_set

module _ (b : Blake3) (laws : IsBlake3 b) where
  pub accounts_hash-IsLtHash : (l : List AccountForHash) → IsLtHash (accounts_hash b l)
  unfolding accounts_hash
  accounts_hash-IsLtHash [] = identity-IsLtHash
  accounts_hash-IsLtHash (a ∷ rest) =
      mix_in-IsLtHash (hash_account-IsLtHash b a laws) (accounts_hash-IsLtHash rest)

  -- The hash of one side of a change, and of nothing where there is none.
  unfoldable pub side : Option AccountForHash → LtHash
  side none = identity
  side (some a) = hash_account b a

  side-IsLtHash : (o : Option AccountForHash) → IsLtHash (side o)
  unfolding side
  side-IsLtHash none = identity-IsLtHash
  side-IsLtHash (some a) = hash_account-IsLtHash b a laws

  mix_old-side :
      (d : SlotDelta) (o : Option AccountForHash) (i : ℕ)
      → IsLtHash d.delta
      → IsLtHash (mix_old b d o).delta
        × (limb (mix_old b d o).delta i ≡ (limb d.delta i + 2 ^ 16 - limb (side o) i) % 2 ^ 16)
  unfolding mix_old side
  mix_old-side d none i v = (v, omega (arith, limb-identity i, limb-lt d.delta i v))
  mix_old-side d (some a) i v =
      let va = hash_account-IsLtHash b a laws in (mix_out-IsLtHash v va, limb-mix_out v va i)

  mix_new-side :
      (d : SlotDelta) (o : Option AccountForHash) (i : ℕ)
      → IsLtHash d.delta
      → IsLtHash (mix_new b d o).delta
        × (limb (mix_new b d o).delta i ≡ (limb d.delta i + limb (side o) i) % 2 ^ 16)
  unfolding mix_new side
  mix_new-side d none i v = (v, omega (arith, limb-identity i, limb-lt d.delta i v))
  mix_new-side d (some a) i v =
      let va = hash_account-IsLtHash b a laws in (mix_in-IsLtHash v va, limb-mix_in v va i)

  pub mix-IsLtHash :
      (d : SlotDelta) (old new : Option AccountForHash)
      → IsLtHash d.delta
      → IsLtHash (mix b d old new).delta
  unfolding mix
  mix-IsLtHash d old new v = (mix_new-side _ new 0 (mix_old-side d old 0 v).0).0

  pub mix_all-IsLtHash :
      (d : SlotDelta) (cs : List Change) → IsLtHash d.delta → IsLtHash (mix_all b d cs).delta
  unfolding mix_all
  mix_all-IsLtHash d [] v = v
  mix_all-IsLtHash d ((old, new) ∷ cs) v =
      mix_all-IsLtHash (mix b d old new) cs (mix-IsLtHash d old new v)

  -- One change, limb by limb.
  limb-mix :
      (d : SlotDelta) (old new : Option AccountForHash) (i : ℕ)
      → IsLtHash d.delta
      → limb (mix b d old new).delta i
        ≡ (limb d.delta i + 2 ^ 16 - limb (side old) i + limb (side new) i) % 2 ^ 16
  unfolding mix
  limb-mix d old new i v =
      let (vo, eo) = mix_old-side d old i v in
      omega (
        arith,
        eo,
        mix_new-side (mix_old b d old) new i vo,
        limb-lt (side old) i (side-IsLtHash old),
      )

  mix_swap :
      (d : SlotDelta) (c e : Change)
      → IsLtHash d.delta
      → mix b (mix b d c.0 c.1) e.0 e.1 ≡ mix b (mix b d e.0 e.1) c.0 c.1
  mix_swap d c e v =
      let vc = mix-IsLtHash d c.0 c.1 v in
      let ve = mix-IsLtHash d e.0 e.1 v in
      ap (λ t. record { delta = t })
        (LtHash_ext (mix-IsLtHash _ e.0 e.1 vc) (mix-IsLtHash _ c.0 c.1 ve) λ i. omega (
          arith,
          limb-mix d c.0 c.1 i v,
          limb-mix d e.0 e.1 i v,
          limb-mix (mix b d c.0 c.1) e.0 e.1 i vc,
          limb-mix (mix b d e.0 e.1) c.0 c.1 i ve,
          limb-lt (side c.0) i (side-IsLtHash c.0),
          limb-lt (side e.0) i (side-IsLtHash e.0),
        ))

  mix_all-Permᴰ :
      (d : SlotDelta) {xs ys : List Change}
      → Permᴰ xs ys
      → IsLtHash d.delta
      → mix_all b d xs ≡ mix_all b d ys
  unfolding mix_all
  mix_all-Permᴰ d Permᴰ.nil v = refl
  mix_all-Permᴰ d (Permᴰ.cons {b = c} {l₁ = xs} e p) v =
      ap (λ (t : Change). mix_all b (mix b d t.0 t.1) xs) e
      ∙ mix_all-Permᴰ (mix b d c.0 c.1) p (mix-IsLtHash d c.0 c.1 v)
  mix_all-Permᴰ d (Permᴰ.swap {a = x} {b = y} {l = l} e f) v =
      ap (λ t. mix_all b t l) (mix_swap d x y v)
      ∙ ap₂ (λ (s t : Change). mix_all b (mix b (mix b d s.0 s.1) t.0 t.1) l) f e
  mix_all-Permᴰ d (Permᴰ.trans p q) v = mix_all-Permᴰ d p v ∙ mix_all-Permᴰ d q v

  -- The delta does not depend on the order in which the changes are fed.
  pub mix_all-perm :
      (xs ys : List Change) → Perm xs ys → mix_all b new_delta xs ≡ mix_all b new_delta ys
  unfolding new_delta
  mix_all-perm xs ys p =
      ∥∥₁_elim p (SlotDelta-set _ _) (λ q. mix_all-Permᴰ new_delta q identity-IsLtHash)

  limb-present :
      (o : Option AccountForHash) (l : List AccountForHash) (i : ℕ)
      → limb (accounts_hash b (present o ++ l)) i
        ≡ (limb (side o) i + limb (accounts_hash b l) i) % 2 ^ 16
  unfolding accounts_hash side
  limb-present none l i =
      omega (arith, limb-identity i, limb-lt (accounts_hash b l) i (accounts_hash-IsLtHash l))
  limb-present (some a) l i =
      limb-mix_in (hash_account-IsLtHash b a laws) (accounts_hash-IsLtHash l) i

  limb-mix_all :
      (d : SlotDelta) (cs : List Change) (l : List AccountForHash) (i : ℕ)
      → IsLtHash d.delta
      → (limb (accounts_hash b (olds cs ++ l)) i + limb (mix_all b d cs).delta i) % 2 ^ 16
        ≡ (limb (accounts_hash b (news cs ++ l)) i + limb d.delta i) % 2 ^ 16
  unfolding mix_all
  limb-mix_all d [] l i v = refl
  limb-mix_all d ((old, new) ∷ cs) l i v =
      rw (append_assoc (present old) (olds cs) l, append_assoc (present new) (news cs) l)
        (omega (
          arith,
          limb-present old (olds cs ++ l) i,
          limb-present new (news cs ++ l) i,
          limb-mix d old new i v,
          limb-mix_all (mix b d old new) cs l i (mix-IsLtHash d old new v),
          limb-lt (side old) i (side-IsLtHash old),
        ))

  -- The accounts hash after the slot is the one before it plus the slot's delta, for any changes
  -- and any accounts that the slot leaves alone.
  pub delta_reconstructs_after :
      (cs : List Change) (l : List AccountForHash)
      → mix_in (accounts_hash b (olds cs ++ l)) (mix_all b new_delta cs).delta
        ≡ accounts_hash b (news cs ++ l)
  unfolding new_delta
  delta_reconstructs_after cs l =
      let before = accounts_hash-IsLtHash (olds cs ++ l) in
      let after = accounts_hash-IsLtHash (news cs ++ l) in
      let vd = mix_all-IsLtHash new_delta cs identity-IsLtHash in
      LtHash_ext (mix_in-IsLtHash before vd) after λ i. omega (
        arith,
        limb-mix_in before vd i,
        limb-mix_all new_delta cs l i identity-IsLtHash,
        limb-identity i,
        limb-lt _ i after,
      )

  -- A change between equal states, or of an account that is a tombstone on both sides, leaves the
  -- delta as it was: a delta cannot tell whether such a change was fed.
  pub mix_same :
      (d : SlotDelta) (old new : Option AccountForHash)
      → IsLtHash d.delta
      → side old ≡ side new
      → mix b d old new ≡ d
  mix_same d old new v e =
      ap (λ t. record { delta = t })
        (LtHash_ext (mix-IsLtHash d old new v) v λ i. omega (
          arith,
          limb-mix d old new i v,
          ap (λ (h : LtHash). limb h i) e,
          limb-lt d.delta i v,
          limb-lt (side old) i (side-IsLtHash old),
        ))

  -- After the same delta and old state, the delta tells the hashes of two new states apart.
  pub mix-new_injective :
      (d : SlotDelta) (old new other : Option AccountForHash)
      → IsLtHash d.delta
      → (mix b d old new).delta ≡ (mix b d old other).delta
      → side new ≡ side other
  mix-new_injective d old new other v e = LtHash_ext (side-IsLtHash new) (side-IsLtHash other) λ i.
      omega (
        arith,
        limb-mix d old new i v,
        limb-mix d old other i v,
        ap (λ (h : LtHash). limb h i) e,
        limb-lt d.delta i v,
        limb-lt (side old) i (side-IsLtHash old),
        limb-lt (side new) i (side-IsLtHash new),
        limb-lt (side other) i (side-IsLtHash other),
      )

  -- Before the same change, it tells two deltas apart.
  pub mix-delta_injective :
      (d d' : SlotDelta) (old new : Option AccountForHash)
      → IsLtHash d.delta
      → IsLtHash d'.delta
      → (mix b d old new).delta ≡ (mix b d' old new).delta
      → d.delta ≡ d'.delta
  mix-delta_injective d d' old new v v' e = LtHash_ext v v' λ i. omega (
    arith,
    limb-mix d old new i v,
    limb-mix d' old new i v',
    ap (λ (h : LtHash). limb h i) e,
    limb-lt d.delta i v,
    limb-lt d'.delta i v',
    limb-lt (side old) i (side-IsLtHash old),
    limb-lt (side new) i (side-IsLtHash new),
  )

  -- Only the hash of the new state counts.
  pub mix-new_same :
      (d : SlotDelta) (old : Option AccountForHash) (n other : AccountForHash)
      → hash_account b n ≡ hash_account b other
      → mix b d old (some n) ≡ mix b d old (some other)
  unfolding mix mix_new
  mix-new_same d old n other e = ap (λ h. record { delta = mix_in (mix_old b d old).delta h }) e
