-- ===== src/Listener/Finalize/Report.antt =====
-- What the event of `try_finalize_slot` says.
use lattica.Prelude.{
  ℕ, ◌+◌, ◌≤◌, ◌<◌, true, false, Option, some, List, [], ◌∷◌, ◌==◌, ==_iff, leb, leb→le, leb-false,
  ◌≡◌, ◌⊎◌, refl, sym, ap, subst, inl, inr, Bool-cases, Option-cases, arith,
}
use lattica.Prelude.Bytes.{Bytes}
use lattica.Listener.State.{
  F64, Env, slot_finalized, Event, FecState, SlotState, contains, FecAssembler, put_slot,
}
use lattica.Listener.Finalize.{
  Totals, up_to, all_contained, collect, ready, finalized_event, finalize_ready, try_finalize_slot,
  aggregate_root,
}
use lattica.Listener.Finalize.Once.{ready-IsReady, marked}

-- The roots of the sets with these indices, one by one and in their order, and the number of distinct
-- shreds of all of them.
abbrev pub Collects : {F : Type 0} → FecAssembler F → ℕ → List ℕ → List Bytes → ℕ → Type 0
Collects a slot [] [] n = n ≡ 0
Collects a slot [] (root ∷ roots) n = ⊥
Collects a slot (i ∷ is) [] n = ⊥
Collects {F} a slot (i ∷ is) (root ∷ roots) n =
    (st : FecState F) × (m : ℕ) × (a.states (record { slot = slot; fec_set_index = i }) ≡ some st)
    × (st.merkle_root ≡ some root)
    × (n ≡ st.distinct_seen + m)
    × Collects a slot is roots m

collect-Collects :
    (f : F64) (a : FecAssembler f.F) (slot : ℕ) (is : List ℕ) (total : ℕ) (undetect : f.F)
    (t : Totals f.F)
    → collect f a slot is total undetect ≡ some t
    → (m : ℕ) × (t.total_shreds ≡ total + m) × Collects a slot is t.fec_roots m
unfolding collect
collect-Collects f a slot [] total undetect t h =
    (0, sum_same t (some_inj _ _ h), roots_same t (some_inj _ _ h))
  where
    some_inj : (x y : Totals f.F) → some x ≡ some y → x ≡ y
    some_inj x y e = cc

    sum_same :
        (t : Totals f.F)
        → record { fec_roots = []; total_shreds = total; undetect = undetect } ≡ t
        → t.total_shreds ≡ total + 0
    sum_same t e = omega (arith, ap (λ (x : Totals f.F). x.total_shreds) e)

    roots_same :
        (t : Totals f.F)
        → record { fec_roots = []; total_shreds = total; undetect = undetect } ≡ t
        → Collects a slot [] t.fec_roots 0
    roots_same t e = subst (λ (x : Totals f.F). Collects a slot [] x.fec_roots 0) e refl
collect-Collects f a slot (i ∷ is) total undetect t h =
    elim (Option-cases (a.states (record { slot = slot; fec_set_index = i }))) [
      | inl e ↦ cc (rw e at h)
      | inr (st, e) ↦ elim (Option-cases st.merkle_root) [
        | inl g ↦ cc (rw (e, g) at h)
        | inr (root, g) ↦
            let step = f.mul undetect (f.sub (f.of_nat 1) st.das_confidence_at_reconstruct) in
            elim (Option-cases (collect f a slot is (total + st.distinct_seen) step)) [
              | inl k ↦ cc (rw (e, g, k) at h)
              | inr (rest, k) ↦
                  let (m, sum, roots) =
                    collect-Collects f a slot is (total + st.distinct_seen) step rest k in
                  let whole : some (record rest { fec_roots = root ∷ rest.fec_roots }) ≡ some t =
                    rw (e, g, k) at h in
                  let same = some_inj _ _ whole in
                  subst
                    (λ (x : Totals f.F).
                      (n : ℕ) × (x.total_shreds ≡ total + n)
                      × Collects a slot (i ∷ is) x.fec_roots n)
                    same (st.distinct_seen + m, omega (arith, sum), (st, m, e, g, refl, roots))
            ]
      ]
    ]
  where
    some_inj : (x y : Totals f.F) → some x ≡ some y → x ≡ y
    some_inj x y e = cc

-- The mark on the slot leaves the sets alone.
marked-Collects :
    (env : Env) (a : FecAssembler env.float.F) (slot : ℕ) (s : SlotState) (is : List ℕ)
    (roots : List Bytes) (n : ℕ)
    → Collects (marked env a slot s) slot is roots n
    → Collects a slot is roots n
unfolding put_slot
marked-Collects env a slot s [] [] n c = c
marked-Collects env a slot s [] (root ∷ roots) n c = c
marked-Collects env a slot s (i ∷ is) [] n c = c
marked-Collects env a slot s (i ∷ is) (root ∷ roots) n (st, m, e1, e2, e3, rest) =
    (st, m, e1, e2, e3, marked-Collects env a slot s is roots m rest)

-- The index is among those of the list.
abbrev pub IsIndex : ℕ → List ℕ → Type 0
IsIndex i [] = ⊥
IsIndex i (x ∷ xs) = (i ≡ x) ⊎ IsIndex i xs

-- The second list has the members of the first that are at most `last`, in their order.
pub data Restricts (last : ℕ) : List ℕ → List ℕ → Type 0 where
  nothing : Restricts last [] []
  kept :
      {is js : List ℕ} (i : ℕ) → i ≤ last → Restricts last is js → Restricts last (i ∷ is) (i ∷ js)
  left_out : {is js : List ℕ} (i : ℕ) → last < i → Restricts last is js → Restricts last (i ∷ is) js

up_to-Restricts : (last : ℕ) (is : List ℕ) → Restricts last is (up_to last is)
unfolding up_to
up_to-Restricts last [] = nothing
up_to-Restricts last (i ∷ is) = elim (Bool-cases (leb i last)) [
  | inl e ↦ rw e (kept i (leb→le i last e) (up_to-Restricts last is))
  | inr e ↦ rw e (left_out i (leb-false i last e) (up_to-Restricts last is))
]

contains-IsIndex : (i : ℕ) (xs : List ℕ) → contains i xs ≡ true → IsIndex i xs
unfolding contains
contains-IsIndex i [] h = cc
contains-IsIndex i (x ∷ xs) h = elim (Bool-cases (i == x)) [
  | inl e ↦ inl ((==_iff i x).0 e)
  | inr e ↦ inr (contains-IsIndex i xs (rw e at h))
]

-- Every index up to the last one is among those that are done.
complete_up_to :
    (last : ℕ) (is done : List ℕ)
    → all_contained (up_to last is) done ≡ true
    → (i : ℕ) → IsIndex i is
    → i ≤ last
    → IsIndex i done
unfolding all_contained up_to
complete_up_to last [] done h i at low = elim at [ ]
complete_up_to last (j ∷ is) done h i at low = elim (Bool-cases (leb j last)) [
  | inr e ↦ elim at [
    | inl same ↦ absurd (omega (arith, leb-false j last e, same, low))
    | inr later ↦ complete_up_to last is done (rw e at h) i later low
  ]
  | inl e ↦ elim (Bool-cases (contains j done)) [
    | inr k ↦ cc (rw (e, k) at h)
    | inl k ↦ elim at [
      | inl same ↦ subst (λ n. IsIndex n done) (sym same) (contains-IsIndex j done k)
      | inr later ↦ complete_up_to last is done (rw (e, k) at h) i later low
    ]
  ]
]

-- What is behind the event of a finalized slot: the slot was not finalized, its last shred was seen,
-- as was the set `last` that this shred is of, and every set seen up to `last` is reconstructed.
pub record IsReport (env : Env) (a : FecAssembler env.float.F) (slot : ℕ) (e : Event env)
    : Type 0 where
  pub state : SlotState
  pub was : a.slots slot ≡ some state
  pub fresh : state.finalized ≡ false
  pub marker : state.last_shred_seen ≡ true
  pub last : ℕ
  pub last_index : state.last_fec_set_index ≡ some last
  pub last_seen : IsIndex last state.seen_fec_indices
  pub complete :
      (i : ℕ)
      → IsIndex i state.seen_fec_indices
      → i ≤ last
      → IsIndex i state.reconstructed_fec_indices
  pub indices : List ℕ
  pub restricts : Restricts last state.seen_fec_indices indices
  pub fec_roots : List Bytes
  pub total : ℕ
  pub das : env.float.F
  pub collects : Collects a slot indices fec_roots total
  pub event : e ≡ slot_finalized slot fec_roots (aggregate_root env.sha fec_roots) total das

finalized_event-Collects :
    (env : Env) (a : FecAssembler env.float.F) (slot : ℕ) (is : List ℕ) (e : Event env)
    → finalized_event env a slot is ≡ some e
    → (roots : List Bytes) × (total : ℕ) × (das : env.float.F) × Collects a slot is roots total
      × (e ≡ slot_finalized slot roots (aggregate_root env.sha roots) total das)
unfolding finalized_event
finalized_event-Collects env a slot is e h =
    elim (Option-cases (collect env.float a slot is 0 (env.float.of_nat 1))) [
      | inl k ↦ cc (rw k at h)
      | inr (t, k) ↦
          let (m, sum, roots) = collect-Collects env.float a slot is 0 (env.float.of_nat 1) t k in
          let sum' : m ≡ t.total_shreds = omega (arith, sum) in
          (
            t.fec_roots,
            t.total_shreds,
            env.float.sub (env.float.of_nat 1) t.undetect,
            subst (Collects a slot is t.fec_roots) sum' roots,
            cc (rw k at h),
          )
    ]

-- An event of `try_finalize_slot` is about a slot that was not finalized, whose last shred was seen with
-- its set, and of which every set seen up to that one is marked as reconstructed. The event lists the
-- roots of these sets in order, commits to them by their aggregate, and counts their distinct shreds.
pub try_finalize_slot-IsReport :
    (env : Env) (a b : FecAssembler env.float.F) (slot : ℕ) (e : Event env)
    → try_finalize_slot env a slot ≡ (b, some e)
    → IsReport env a slot e
unfolding try_finalize_slot finalize_ready put_slot
try_finalize_slot-IsReport env a b slot e h = elim (Option-cases (a.slots slot)) [
  | inl none_there ↦ cc (rw (try_finalize_slot, none_there) at h)
  | inr (s, was) ↦ elim (Option-cases (ready s)) [
    | inl k ↦ cc (rw (try_finalize_slot, was, k) at h)
    | inr (last, k) ↦
        let second = λ (r : FecAssembler env.float.F × Option (Event env)). r.1 in
        let found : finalized_event env (marked env a slot s) slot (up_to last s.seen_fec_indices)
            ≡ some e =
          ap second (rw (try_finalize_slot, was, k) at h) in
        let (roots, total, das, collects, event) =
          finalized_event-Collects env (marked env a slot s) slot (up_to last s.seen_fec_indices) e
            found in
        let r = ready-IsReady s last k in
        record {
          state = s;
          was = was;
          fresh = r.fresh;
          marker = r.marker;
          last = last;
          last_index = r.last_index;
          last_seen = contains-IsIndex last s.seen_fec_indices r.last_seen;
          complete = complete_up_to last s.seen_fec_indices s.reconstructed_fec_indices r.complete;
          indices = up_to last s.seen_fec_indices;
          restricts = up_to-Restricts last s.seen_fec_indices;
          fec_roots = roots;
          total = total;
          das = das;
          collects =
              marked-Collects env a slot s (up_to last s.seen_fec_indices) roots total collects;
          event = event;
        }
  ]
]
