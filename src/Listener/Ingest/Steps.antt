-- ===== src/Listener/Ingest/Steps.antt =====
-- The ends of the handler: finalizing a slot, and the attempt to reconstruct a set.
use lattica.Prelude.{
  ℕ, ◌+◌, ◌≤◌, true, false, ◌&&◌, not, Option, none, some, List, [], ◌∷◌, ◌==◌, ==_iff, leb,
  if◌then◌else◌, All, ◌≡◌, ◌≢◌, refl, sym, ap, subst, ◌∙◌, inl, inr, Bool-cases, arith,
}
use lattica.Prelude.Bytes.{Bytes}
use lattica.Prelude.Outcome.{Outcome, ok, panic, Outcome-cases}
use lattica.Shred.Verify.{VerifiedShred}
use lattica.Shred.Erasure.{ReedSolomon}
use lattica.Listener.State.{
  FecKey, Env, reconstruct, rejected, rs_reconstruct, Event, FecState, SlotState, FecAssembler,
  put_state, put_slot, slot_or_default,
}
use lattica.Listener.Finalize.Once.{FinalEvents, marked, Finalized, finish_cases}
use lattica.Listener.Ingest.{
  Step, key_of, finish, mark_reconstructed, done_state, complete_set, complete_with, attempt,
}
use lattica.Listener.Invariant.{
  IsFecState, AllStates, flag, flag_at, finalize_count, Reports, IsStep, put_state-AllStates,
  put_state_self, flag-put_state, flag-put_slot, put_slot_states,
}

-- The erasure code reports its failures as errors.
pub record IsReedSolomon (rs : ReedSolomon) : Type 0 where
  pub new-ne-panic : (n m : ℕ) → rs.new n m ≢ panic
  pub reconstruct_with-ne-panic :
      (c : rs.Codec) (shards : List (Option Bytes)) → rs.reconstruct_with c shards ≢ panic

reconstruct-ne-panic :
    (rs : ReedSolomon) (shards : List (Option Bytes))
    → IsReedSolomon rs
    → reconstruct rs shards ≢ panic
unfolding reconstruct
reconstruct-ne-panic rs shards laws h = elim (Outcome-cases (rs.new 32 32)) [
  | inl (c, e) ↦ laws.reconstruct_with-ne-panic c shards (rw e at h)
  | inr (inl (x, e)) ↦ cc (rw e at h)
  | inr (inr e) ↦ laws.new-ne-panic 32 32 e
]

pub same_states :
    {F : Type 0} (a b : FecAssembler F) → a.states ≡ b.states → AllStates a → AllStates b
same_states {F} a b e v =
    subst
      (λ (m : FecKey → Option (FecState F)).
        (k : FecKey) (s : FecState F) → m k ≡ some s → IsFecState s)
      e v

module _ (env : Env) where
  pub idle-IsStep : (a : FecAssembler env.float.F) → AllStates a → IsStep env a (a, [])
  idle-IsStep a v = record { states = v; once = λ slot. omega arith; reports = tt }

  final-Reports :
      (a : FecAssembler env.float.F) (slot : ℕ) (es : List (Event env))
      → FinalEvents env slot es
      → All (Reports a) es
  final-Reports a slot es (inl e) = rw e tt
  final-Reports a slot es (inr (roots, total, das, e)) = rw e (tt, tt)

  final_count :
      (slot at : ℕ) (es : List (Event env))
      → FinalEvents env at es
      → finalize_count slot es ≤ (if at == slot then 1 else 0)
  final_count slot at es (inl e) = rw e (omega arith)
  final_count slot at es (inr (roots, total, das, e)) = rw e (omega arith)

  marked_once :
      (a : FecAssembler env.float.F) (at : ℕ) (s : SlotState) (slot : ℕ)
      → a.slots at ≡ some s
      → s.finalized ≡ false
      → (if at == slot then 1 else 0) + flag_at a slot ≤ flag_at (marked env a at s) slot
  unfolding put_slot
  marked_once a at s slot was fresh = elim (Bool-cases (at == slot)) [
    | inl same ↦
        let e : at ≡ slot = (==_iff at slot).0 same in
        let back : (slot == at) ≡ true = (==_iff slot at).1 (sym e) in
        let here : a.slots slot ≡ some s = rw (← e) was in
        rw (same, back, here, fresh) (omega arith)
    | inr other ↦ elim (Bool-cases (slot == at)) [
      | inl same ↦ absurd (different at slot other (sym ((==_iff slot at).0 same)))
      | inr apart ↦ rw (other, apart) (omega arith)
    ]
  ]
    where
      different : (x y : ℕ) → (x == y) ≡ false → x ≢ y
      different x y h e = cc ((==_iff x y).1 e)

  Finalized-IsStep :
      (a : FecAssembler env.float.F) (slot : ℕ)
      → AllStates a
      → (z : Finalized env a slot) → IsStep env a (marked env a slot z.state, z.events)
  Finalized-IsStep a slot v z = record {
    states = same_states a (marked env a slot z.state) (sym (put_slot_states a slot _)) v;
    once = λ other. omega (
      arith,
      final_count other slot z.events z.shape,
      marked_once a slot z.state other z.was z.is_ready.fresh,
    );
    reports = final-Reports (marked env a slot z.state) slot z.events z.shape;
  }

  pub finish-IsStep :
      (a : FecAssembler env.float.F) (slot : ℕ) → AllStates a → IsStep env a (finish env a slot)
  finish-IsStep a slot v = elim (finish_cases env a slot) [
    | inl e ↦ subst (IsStep env a) (sym e) (idle-IsStep a v)
    | inr z ↦ subst (IsStep env a) (sym z.outcome) (Finalized-IsStep a slot v z)
  ]

  finish_states :
      (a : FecAssembler env.float.F) (slot : ℕ) → (finish env a slot).0.states ≡ a.states
  finish_states a slot = elim (finish_cases env a slot) [
    | inl e ↦ ap (λ (r : Step env). r.0.states) e
    | inr z ↦ ap (λ (r : Step env). r.0.states) z.outcome ∙ put_slot_states a slot _
  ]

  -- The step that only writes one state back.
  pub put_state-IsStep :
      (a : FecAssembler env.float.F) (k : FecKey) (s : FecState env.float.F) (es : List (Event env))
      → AllStates a
      → IsFecState s
      → ((slot : ℕ) → finalize_count slot es ≡ 0)
      → All (Reports (put_state a k s)) es
      → IsStep env a (put_state a k s, es)
  put_state-IsStep a k s es v w none_final reported = record {
    states = put_state-AllStates a k s v w;
    once = λ slot. omega (arith, none_final slot, flag-put_state a k s slot);
    reports = reported;
  }

  mark_states :
      (a : FecAssembler env.float.F) (v : VerifiedShred)
      → (mark_reconstructed a v).states ≡ a.states
  unfolding mark_reconstructed
  mark_states a v = put_slot_states a v.slot _

  mark_flag :
      (a : FecAssembler env.float.F) (v : VerifiedShred) (slot : ℕ)
      → flag_at (mark_reconstructed a v) slot ≡ flag_at a slot
  unfolding mark_reconstructed
  mark_flag a v slot = flag-put_slot a v.slot _ slot (kept (a.slots v.slot))
    where
      kept : (o : Option SlotState) → flag (some (slot_or_default o)) ≡ flag o
      kept none = refl
      kept (some s) = refl

  -- A call returns, and makes a step.
  abbrev pub Runs : FecAssembler env.float.F → Outcome ⊥ (Step env) → Type 0
  Runs a m = (r : Step env) × (m ≡ ok r) × IsStep env a r

  complete_set-IsStep :
      (a : FecAssembler env.float.F) (v : VerifiedShred) (s : FecState env.float.F) (root : Bytes)
      → AllStates a
      → IsFecState s
      → 32 ≤ s.distinct_seen
      → s.merkle_root ≡ some root
      → IsStep env a (complete_set env a v s root)
  unfolding complete_set
  complete_set-IsStep a v s root all w enough rooted =
      let k = key_of v in
      let done = done_state env.float s in
      let done-IsFecState : IsFecState done = record {
        shard_count = w.shard_count;
        distinct = w.distinct;
        enough = λ e. enough;
        has_root = w.has_root;
      } in
      let saved = put_state a k done in
      let mark = mark_reconstructed saved v in
      let all_saved = put_state-AllStates a k done all done-IsFecState in
      let step =
        finish-IsStep mark v.slot (same_states saved mark (sym (mark_states saved v)) all_saved) in
      record {
        states = step.states;
        once = λ slot.
            omega (arith, step.once slot, mark_flag saved v slot, flag-put_state a k done slot);
        reports = (
          (
            done,
            ap (λ (m : FecKey → Option (FecState env.float.F)). m k)
                  (finish_states mark v.slot ∙ mark_states saved v)
                ∙ put_state_self a k done,
            refl,
            enough,
            rooted,
          ),
          step.reports,
        );
      }

  pub attempt-Runs :
      (a : FecAssembler env.float.F) (v : VerifiedShred) (s : FecState env.float.F)
      → IsReedSolomon env.rs
      → AllStates a
      → IsFecState s
      → Runs a (attempt env a v s)
  unfolding attempt
  attempt-Runs a v s laws all w =
      elim (Bool-cases (leb 32 s.distinct_seen && not s.is_reconstructed)) [
        | inr e ↦ (
          (put_state a (key_of v) s, []),
          rw (attempt, e) refl,
          put_state-IsStep a (key_of v) s [] all w (λ slot. refl) tt,
        )
        | inl e ↦
            let enough = enough_from s e in
            let (root, rooted) = w.has_root (omega (arith, enough)) in
            elim (Outcome-cases (reconstruct env.rs s.shards)) [
              | inl (recovered, f) ↦ (
                complete_set env a v s root,
                rw (attempt, e, f) (ap (complete_with env a v s) rooted),
                complete_set-IsStep a v s root all w enough rooted,
              )
              | inr (inl (x, f)) ↦ (
                (put_state a (key_of v) s, rejected (rs_reconstruct x) ∷ []),
                rw (attempt, e, f) refl,
                put_state-IsStep a (key_of v) s (rejected (rs_reconstruct x) ∷ []) all w
                    (λ slot. refl) (tt, tt),
              )
              | inr (inr f) ↦ absurd (reconstruct-ne-panic env.rs s.shards laws f)
            ]
      ]
    where
      enough_from :
          (s : FecState env.float.F)
          → (leb 32 s.distinct_seen && not s.is_reconstructed) ≡ true
          → 32 ≤ s.distinct_seen
      enough_from s e = ground arith
