-- ===== src/Listener/Finalize/Once.antt =====
-- `try_finalize_slot` finalizes a slot that is not finalized, and marks it.
use lattica.Prelude.{
  ℕ, true, false, some, List, [], ◌∷◌, ◌≡◌, refl, subst, ◌⊎◌, inl, inr, Bool-cases, Option-cases,
}
use lattica.Prelude.Bytes.{Bytes}
use lattica.Listener.State.{Env, slot_finalized, Event, SlotState, contains, FecAssembler, put_slot}
use lattica.Listener.Finalize.{
  up_to, all_contained, collect, ready, finalized_event, finalize_ready, try_finalize_slot,
  aggregate_root,
}
use lattica.Listener.Ingest.{push_option, finish}

-- A slot is ready only if it is not finalized, its last shred was seen, and every set seen up to the
-- last one is reconstructed.
pub record IsReady (s : SlotState) (last : ℕ) : Type 0 where
  pub fresh : s.finalized ≡ false
  pub marker : s.last_shred_seen ≡ true
  pub last_index : s.last_fec_set_index ≡ some last
  pub complete : all_contained (up_to last s.seen_fec_indices) s.reconstructed_fec_indices ≡ true
  pub last_seen : contains last s.seen_fec_indices ≡ true

pub ready-IsReady : (s : SlotState) (last : ℕ) → ready s ≡ some last → IsReady s last
unfolding ready
ready-IsReady s last h = elim (Bool-cases s.finalized) [
  | inl e ↦ cc (rw e at h)
  | inr fresh ↦ elim (Bool-cases s.last_shred_seen) [
    | inr e ↦ cc (rw (fresh, e) at h)
    | inl marker ↦ elim (Option-cases s.last_fec_set_index) [
      | inl e ↦ cc (rw (fresh, marker, e) at h)
      | inr (i, found) ↦
          elim (Bool-cases
            (all_contained (up_to i s.seen_fec_indices) s.reconstructed_fec_indices)) [
              | inr e ↦ cc (rw (fresh, marker, found, e) at h)
              | inl complete ↦ elim (Bool-cases (contains i s.seen_fec_indices)) [
                | inr e ↦ cc (rw (fresh, marker, found, complete, e) at h)
                | inl seen ↦
                    let same : some i ≡ some last =
                      rw (fresh, marker, found, complete, seen) at h in
                    let same' : i ≡ last = cc in
                    subst (IsReady s) same' (record {
                      fresh = fresh;
                      marker = marker;
                      last_index = found;
                      complete = complete;
                      last_seen = seen;
                    })
              ]
            ]
    ]
  ]
]

module _ (env : Env) where
  -- The events of `finish`: none, or the one that finalizes the slot, with the aggregate of its roots.
  abbrev pub FinalEvents : ℕ → List (Event env) → Type 0
  FinalEvents slot es =
      (es ≡ [])
      ⊎ ((roots : List Bytes) × (total : ℕ) × (das : env.float.F) × (es
            ≡ slot_finalized slot roots (aggregate_root env.sha roots) total das ∷ []))

  finalized_event_cases :
      (a : FecAssembler env.float.F) (slot : ℕ) (is : List ℕ)
      → FinalEvents slot (push_option (finalized_event env a slot is))
  unfolding finalized_event
  finalized_event_cases a slot is =
      elim (Option-cases (collect env.float a slot is 0 (env.float.of_nat 1))) [
        | inl e ↦ rw e (inl refl)
        | inr (t, e) ↦
            rw e (
              inr
                (t.fec_roots, t.total_shreds, env.float.sub (env.float.of_nat 1) t.undetect, refl))
      ]

  abbrev pub marked : FecAssembler env.float.F → ℕ → SlotState → FecAssembler env.float.F
  marked a slot s = put_slot a slot (record s { finalized = true })

  pub record Finalized (a : FecAssembler env.float.F) (slot : ℕ) : Type 0 where
    pub state : SlotState
    pub was : a.slots slot ≡ some state
    pub last : ℕ
    pub is_ready : IsReady state last
    pub events : List (Event env)
    pub outcome : finish env a slot ≡ (marked a slot state, events)
    pub shape : FinalEvents slot events

  -- `finish` changes nothing, or the slot is ready and is marked.
  pub finish_cases :
      (a : FecAssembler env.float.F) (slot : ℕ) → (finish env a slot ≡ (a, [])) ⊎ Finalized a slot
  unfolding finish try_finalize_slot finalize_ready
  finish_cases a slot = elim (Option-cases (a.slots slot)) [
    | inl e ↦ inl (rw (finish, try_finalize_slot, e) refl)
    | inr (s, was) ↦ elim (Option-cases (ready s)) [
      | inl e ↦ inl (rw (finish, try_finalize_slot, was, e) refl)
      | inr (last, e) ↦ inr (record {
        state = s;
        was = was;
        last = last;
        is_ready = ready-IsReady s last e;
        events =
            push_option
              (finalized_event env (marked a slot s) slot (up_to last s.seen_fec_indices));
        outcome = rw (finish, try_finalize_slot, was, e) refl;
        shape = finalized_event_cases (marked a slot s) slot (up_to last s.seen_fec_indices);
      })
    ]
  ]
