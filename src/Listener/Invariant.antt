-- ===== src/Listener/Invariant.antt =====
-- What holds of the assembler's states, of the slots' flags, and of the events of a step.
use lattica.Prelude.{
  ℕ, zero, suc, ◌+◌, ◌≤◌, ◌<◌, true, Option, none, some, List, [], ◌∷◌, ◌++◌, ◌==◌, ==_iff,
  if◌then◌else◌, length, get_elem?, set, length-replicate, All, ◌≡◌, refl, ap, subst, inl, inr,
  Bool-cases, arith,
}
use lattica.Prelude.Bytes.{Bytes}
use lattica.Listener.State.{
  FecKey, key_eq, F64, Env, FecEvent, started, shred_accepted, reconstructed, slot_finalized,
  rejected, Event, FecState, new_state, SlotState, FecAssembler, put_state, put_slot,
}

abbrev pub present_count : List (Option Bytes) → ℕ
present_count [] = 0
present_count (none ∷ xs) = present_count xs
present_count (some b ∷ xs) = suc (present_count xs)

-- 64 places, `distinct_seen` of them filled, 32 at least where the set is reconstructed, and a root
-- as soon as one is filled.
pub record IsFecState {F : Type 0} (s : FecState F) : Type 0 where
  pub shard_count : length s.shards ≡ 64
  pub distinct : s.distinct_seen ≡ present_count s.shards
  pub enough : s.is_reconstructed ≡ true → 32 ≤ s.distinct_seen
  pub has_root : 0 < s.distinct_seen → (root : Bytes) × (s.merkle_root ≡ some root)

abbrev pub AllStates : {F : Type 0} → FecAssembler F → Type 0
AllStates {F} a = (k : FecKey) (s : FecState F) → a.states k ≡ some s → IsFecState s

-- 1 where the slot is finalized.
abbrev pub flag : Option SlotState → ℕ
flag none = 0
flag (some s) = if s.finalized then 1 else 0

abbrev pub flag_at : {F : Type 0} → FecAssembler F → ℕ → ℕ
flag_at a slot = flag (a.slots slot)

-- How many of the events finalize the slot.
abbrev pub finalizes : {F R : Type 0} → ℕ → FecEvent F R → ℕ
finalizes slot (started k root) = 0
finalizes slot (shred_accepted k n i) = 0
finalizes slot (reconstructed k root das) = 0
finalizes slot (slot_finalized s roots root total das) = if s == slot then 1 else 0
finalizes slot (rejected r) = 0

abbrev pub finalize_count : {F R : Type 0} → ℕ → List (FecEvent F R) → ℕ
finalize_count slot [] = 0
finalize_count slot (e ∷ es) = finalizes slot e + finalize_count slot es

-- An event `reconstructed` is true of the assembler: the set is there and reconstructed, from 32
-- shreds at least, under that root.
abbrev pub Reports : {F R : Type 0} → FecAssembler F → FecEvent F R → Type 0
Reports a (started k root) = Unit
Reports a (shred_accepted k n i) = Unit
Reports {F} a (reconstructed k root das) =
    (s : FecState F) × (a.states k ≡ some s)
    × (s.is_reconstructed ≡ true)
    × (32 ≤ s.distinct_seen)
    × (s.merkle_root ≡ some root)
Reports a (slot_finalized s roots root total das) = Unit
Reports a (rejected r) = Unit

-- A step from `a`: the states stay as they should be, a slot is finalized only if it was not before
-- and then is, and the reported sets are as reported.
pub record IsStep (env : Env) (a : FecAssembler env.float.F)
    (r : FecAssembler env.float.F × List (Event env)) : Type 0 where
  pub states : AllStates r.0
  pub once : (slot : ℕ) → finalize_count slot r.1 + flag_at a slot ≤ flag_at r.0 slot
  pub reports : All (Reports r.0) r.1

module _ {F : Type 0} where
  pub put_state-AllStates :
      (a : FecAssembler F) (k : FecKey) (s : FecState F)
      → AllStates a
      → IsFecState s
      → AllStates (put_state a k s)
  unfolding put_state
  put_state-AllStates a k s v w j t e = elim (Bool-cases (key_eq j k)) [
    | inl same ↦ let here : some s ≡ some t = rw same at e in subst IsFecState (some_inj s t here) w
    | inr other ↦ v j t (rw other at e)
  ]
    where
      some_inj : (x y : FecState F) → some x ≡ some y → x ≡ y
      some_inj x y h = cc

  pub put_state_self :
      (a : FecAssembler F) (k : FecKey) (s : FecState F) → (put_state a k s).states k ≡ some s
  unfolding put_state
  put_state_self a k s =
      let same : key_eq k k ≡ true =
        rw ((==_iff k.slot k.slot).1 refl, (==_iff k.fec_set_index k.fec_set_index).1 refl) refl in
      rw same refl

  pub flag-put_state :
      (a : FecAssembler F) (k : FecKey) (s : FecState F) (slot : ℕ)
      → flag_at (put_state a k s) slot ≡ flag_at a slot
  unfolding put_state
  flag-put_state a k s slot = refl

  -- A write to a slot's state that leaves its flag alone.
  pub flag-put_slot :
      (a : FecAssembler F) (at : ℕ) (s : SlotState) (slot : ℕ)
      → flag (some s) ≡ flag_at a at
      → flag_at (put_slot a at s) slot ≡ flag_at a slot
  unfolding put_slot
  flag-put_slot a at s slot e = elim (Bool-cases (slot == at)) [
    | inl same ↦ rw (same, (==_iff slot at).0 same) e
    | inr other ↦ rw other refl
  ]

  pub put_slot_states :
      (a : FecAssembler F) (at : ℕ) (s : SlotState) → (put_slot a at s).states ≡ a.states
  unfolding put_slot
  put_slot_states a at s = refl

pub new_state-IsFecState : (f : F64) → IsFecState (new_state f)
new_state-IsFecState f = record {
  shard_count = length-replicate {A = Option Bytes} 64 none;
  distinct = refl;
  enough = λ e. cc;
  has_root = λ h. elim h [ ];
}

pub present_count-set :
    (xs : List (Option Bytes)) (i : ℕ) (b : Bytes)
    → get_elem? xs i ≡ some none
    → present_count (set xs i (some b)) ≡ suc (present_count xs)
present_count-set [] i b h = cc
present_count-set (none ∷ xs) zero b h = refl
present_count-set (some c ∷ xs) zero b h = cc
present_count-set (none ∷ xs) (suc i) b h = present_count-set xs i b h
present_count-set (some c ∷ xs) (suc i) b h = ap suc (present_count-set xs i b h)

pub finalize_count-append :
    {F R : Type 0} (slot : ℕ) (es fs : List (FecEvent F R))
    → finalize_count slot (es ++ fs) ≡ finalize_count slot es + finalize_count slot fs
finalize_count-append slot [] fs = omega arith
finalize_count-append slot (e ∷ es) fs = omega (arith, finalize_count-append slot es fs)
