-- ===== src/Listener/Ingest/Entry.antt =====
-- The entry of a slot of two FEC sets, the second with the last shred, and what `finish` does with it.
use lattica.Prelude.{
  ℕ, ◌<◌, true, false, some, [], ◌∷◌, ◌≡◌, refl, arith, ◌==◌, ==_iff, Bool-cases, inl, inr, le→leb,
  le→ltb_false, max,
}
use lattica.Prelude.Bytes.{Bytes}
use lattica.Shred.Verify.{VerifiedShred, is_last_in_slot}
use lattica.Listener.State.{
  FecKey, Env, slot_finalized, FecState, SlotState, default_slot, note_shred, insert, contains,
  FecAssembler, put_slot,
}
use lattica.Listener.Finalize.{
  aggregate_root, up_to, all_contained, collect, ready, finalized_event, finalize_ready,
  try_finalize_slot,
}
use lattica.Listener.Ingest.{finish}

-- The slot while its first set comes in, and while its second does.
abbrev pub one_set : ℕ → SlotState
one_set i = record default_slot { seen_fec_indices = i ∷ [] }

abbrev pub two_sets : ℕ → ℕ → SlotState
two_sets i j = record {
  seen_fec_indices = i ∷ j ∷ [];
  reconstructed_fec_indices = i ∷ [];
  last_shred_seen = true;
  last_fec_set_index = some j;
  finalized = false;
}

pub above : (i j : ℕ) → i < j → (j == i) ≡ false
above i j h = elim (Bool-cases (j == i)) [
  | inl e ↦ let same : j ≡ i = (==_iff j i).0 e in absurd (omega (arith, h, same))
  | inr e ↦ e
]

insert_again : (i : ℕ) → insert i (i ∷ []) ≡ i ∷ []
unfolding insert
insert_again i = rw (le→ltb_false i i (omega arith), (==_iff i i).1 refl) refl

pub insert_above : (i j : ℕ) → i < j → insert j (i ∷ []) ≡ i ∷ j ∷ []
unfolding insert
insert_above i j h = rw (le→ltb_false j i (omega (arith, h)), above i j h) refl

insert_last : (i j : ℕ) → i < j → insert j (i ∷ j ∷ []) ≡ i ∷ j ∷ []
unfolding insert
insert_last i j h =
    rw
      (
        le→ltb_false j i (omega (arith, h)),
        above i j h,
        le→ltb_false j j (omega arith),
        (==_iff j j).1 refl,
      )
      refl

-- What the shreds of the two sets write into the slot.
pub note_one :
    (v : VerifiedShred) (i : ℕ)
    → v.fec_set_index ≡ i
    → is_last_in_slot v ≡ false
    → (note_shred v default_slot ≡ one_set i) × (note_shred v (one_set i) ≡ one_set i)
unfolding note_shred
note_one v i e last =
    let again = insert_again i in (rw (last, e) (unfold insert in refl), rw (last, e, again) refl)

pub note_two :
    (v : VerifiedShred) (i j : ℕ)
    → i < j
    → v.fec_set_index ≡ j
    → is_last_in_slot v ≡ true
    → (note_shred v (record (one_set i) { reconstructed_fec_indices = i ∷ [] }) ≡ two_sets i j)
      × (note_shred v (two_sets i j) ≡ two_sets i j)
unfolding note_shred
note_two v i j h e last =
    let same : max j j ≡ j = omega arith in
    (rw (last, e, insert_above i j h) refl, rw (last, e, insert_last i j h, same) refl)

two_ready :
    (i j : ℕ)
    → i < j
    → ready (record (two_sets i j) { reconstructed_fec_indices = i ∷ j ∷ [] }) ≡ some j
unfolding ready up_to all_contained contains
two_ready i j h =
    rw
      (
        le→leb i j (omega (arith, h)),
        le→leb j j (omega arith),
        (==_iff i i).1 refl,
        above i j h,
        (==_iff j j).1 refl,
      )
      refl

two_up_to : (i j : ℕ) → i < j → up_to j (i ∷ j ∷ []) ≡ i ∷ j ∷ []
unfolding up_to
two_up_to i j h = rw (le→leb i j (omega (arith, h)), le→leb j j (omega arith)) refl

module _ (env : Env) where
  pub finish_waiting :
      (a : FecAssembler env.float.F) (slot : ℕ) (s : SlotState)
      → a.slots slot ≡ some s
      → s.finalized ≡ false
      → s.last_shred_seen ≡ false
      → finish env a slot ≡ (a, [])
  unfolding finish try_finalize_slot finalize_ready ready
  finish_waiting a slot s h open_slot more = rw (try_finalize_slot, h, open_slot, more) refl

  -- Minus one, the product over the two sets of one minus one.
  abbrev pub two_sets_confidence : env.float.F
  two_sets_confidence =
      let f = env.float in
      let one = f.of_nat 1 in
      let none_left = f.sub one one in f.sub one (f.mul (f.mul one none_left) none_left)

  -- What the assembler has of a set that is reconstructed.
  pub record IsKnown (a : FecAssembler env.float.F) (key : FecKey) (root : Bytes) : Type 0 where
    pub state : FecState env.float.F
    pub known : a.states key ≡ some state
    pub rooted : state.merkle_root ≡ some root
    pub seen : state.distinct_seen ≡ 32
    pub confident : state.das_confidence_at_reconstruct ≡ env.float.of_nat 1

  pub finish_two :
      (a : FecAssembler env.float.F) (slot i j : ℕ) (root_a root_b : Bytes)
      → i < j
      → a.slots slot ≡ some (record (two_sets i j) { reconstructed_fec_indices = i ∷ j ∷ [] })
      → IsKnown a (record { slot = slot; fec_set_index = i }) root_a
      → IsKnown a (record { slot = slot; fec_set_index = j }) root_b
      → (finish env a slot).1
        ≡ slot_finalized slot
            (root_a ∷ root_b ∷ [])
            (aggregate_root env.sha (root_a ∷ root_b ∷ []))
            64
            two_sets_confidence
          ∷ []
  unfolding finish try_finalize_slot finalize_ready finalized_event collect put_slot
  finish_two a slot i j root_a root_b h there ka kb =
      rw
        (
          try_finalize_slot,
          there,
          two_ready i j h,
          two_up_to i j h,
          ka.known,
          ka.rooted,
          kb.known,
          kb.rooted,
          ka.seen,
          kb.seen,
          ka.confident,
          kb.confident,
        )
        refl
