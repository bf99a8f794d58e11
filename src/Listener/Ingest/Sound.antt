-- ===== src/Listener/Ingest/Sound.antt =====
-- Every call of `ingest` returns, and makes a step that keeps the invariant.
use lattica.Prelude.{
  ℕ, ◌+◌, ◌-◌, ◌≤◌, ◌<◌, Option, none, some, [], ◌∷◌, if◌then◌else◌, if_true, if_false, length,
  length-set, get_elem?, get_elem?-eq-get_or, take, drop, leb, leb-false, ◌≡◌, refl, sym, ap, ◌∙◌,
  inl, inr, Bool-cases, arith,
}
use lattica.Prelude.Bytes.{Bytes}
use lattica.Prelude.Outcome.{Outcome, ok, ◌>>=◌, slice_lem}
use lattica.Shred.FecSet.{erasure_shard_size}
use lattica.Shred.Variant.{ShredKind, data_shred, code_shred}
use lattica.Shred.Parse.{ParsedShred, expected_len}
use lattica.Shred.Verify.{VerifiedShred, is_last_in_slot}
use lattica.Listener.State.{
  F64, Env, started, shred_accepted, rejected, index_out_of_range, root_diverges, Event, FecState,
  SlotState, FecAssembler, put_state, state_or_new, slot_or_default, note_shred,
}
use lattica.Listener.Ingest.{
  Step, key_of, shard_offset, finish, add_shard, attempt, after_events, place_shard, store_shard,
  bytes_eq, check_root_with, check_root, enter, accept,
}
use lattica.Listener.Ingest.Steps.{
  IsReedSolomon, same_states, finish-IsStep, put_state-IsStep, Runs, attempt-Runs,
}
use lattica.Listener.Invariant.{
  IsFecState, AllStates, flag, flag_at, finalize_count, Reports, IsStep, put_state-AllStates,
  flag-put_slot, put_slot_states, new_state-IsFecState, present_count-set,
}

pub add_shard-IsFecState :
    {F : Type 0} (s : FecState F) (i : ℕ) (b root : Bytes)
    → IsFecState s
    → s.merkle_root ≡ some root
    → get_elem? s.shards i ≡ some none
    → IsFecState (add_shard s i b)
add_shard-IsFecState s i b root w rooted free = record {
  shard_count = omega (arith, length-set s.shards i (some b), w.shard_count);
  distinct = omega (arith, w.distinct, present_count-set s.shards i b free);
  enough = λ e. omega (arith, w.enough e);
  has_root = λ h. (root, rooted);
}

state_or_new-IsFecState :
    (f : F64) (o : Option (FecState f.F))
    → ((s : FecState f.F) → o ≡ some s → IsFecState s)
    → IsFecState (state_or_new f o)
state_or_new-IsFecState f none h = new_state-IsFecState f
state_or_new-IsFecState f (some s) h = h s refl

flag-note_shred :
    (v : VerifiedShred) (o : Option SlotState)
    → flag (some (note_shred v (slot_or_default o))) ≡ flag o
unfolding note_shred
flag-note_shred v o = elim (Bool-cases (is_last_in_slot v)) [
  | inl e ↦ rw e (kept o)
  | inr e ↦ rw e (kept o)
]
  where
    kept : (o : Option SlotState) → flag (some (slot_or_default o)) ≡ flag o
    kept none = refl
    kept (some s) = refl

-- The erasure region of a shred lies inside its payload.
region_fits : (k : ShredKind) (n : ℕ) → expected_len k ≤ n → shard_offset k + erasure_shard_size ≤ n
region_fits data_shred n h = omega (arith, h)
region_fits code_shred n h = omega (arith, h)

module _ (env : Env) (laws : IsReedSolomon env.rs) where
  -- Events pushed earlier than a step's, that neither finalize nor report anything.
  push_first :
      (a : FecAssembler env.float.F) (e : Event env) (m : Outcome ⊥ (Step env))
      → ((slot : ℕ) → finalize_count slot (e ∷ []) ≡ 0)
      → ((b : FecAssembler env.float.F) → Reports b e)
      → Runs env a m
      → Runs env a (m >>= after_events env (e ∷ []))
  push_first a e m none_final reported (r, same, step) = (
    (r.0, e ∷ r.1),
    ap (λ t. t >>= after_events env (e ∷ [])) same,
    record {
      states = step.states;
      once = λ slot. omega (arith, step.once slot, none_final slot);
      reports = (reported r.0, step.reports);
    },
  )

  module _ (a : FecAssembler env.float.F) (raw : Bytes) (p : ParsedShred) (v : VerifiedShred)
      (all : AllStates a) (fits : expected_len v.kind ≤ length raw) where
    rewrite_state :
        (s : FecState env.float.F) (e : Event env)
        → IsFecState s
        → ((slot : ℕ) → finalize_count slot (e ∷ []) ≡ 0)
        → ((b : FecAssembler env.float.F) → Reports b e)
        → IsStep env a (put_state a (key_of v) s, e ∷ [])
    rewrite_state s e w none_final reported =
        put_state-IsStep env a (key_of v) s (e ∷ []) all w none_final
          (reported (put_state a (key_of v) s), tt)

    place_shard-Runs :
        (s : FecState env.float.F) (i : ℕ) (shard root : Bytes)
        → IsFecState s
        → s.merkle_root ≡ some root
        → i < 64
        → (o : Option (Option Bytes)) → get_elem? s.shards i ≡ o
        → Runs env a (place_shard env a v s i shard o)
    place_shard-Runs s i shard root w rooted low none e =
        absurd
          (inside (sym e ∙ get_elem?-eq-get_or s.shards i none (omega (arith, w.shard_count, low))))
      where
        inside : {x : Option Bytes} → ¬ (◌≡◌ {A = Option (Option Bytes)} none (some x))
        inside h = cc
    place_shard-Runs s i shard root w rooted low (some (some b)) e = (
      (put_state a (key_of v) s, []),
      refl,
      put_state-IsStep env a (key_of v) s [] all w (λ slot. refl) tt,
    )
    place_shard-Runs s i shard root w rooted low (some none) e =
        push_first a (shred_accepted (key_of v) (s.distinct_seen + 1) i)
          (attempt env a v (add_shard s i shard)) (λ slot. refl) (λ b. tt)
          (attempt-Runs env a v (add_shard s i shard) laws all
            (add_shard-IsFecState s i shard root w rooted e))

    store_shard-Runs :
        (s : FecState env.float.F) (root : Bytes)
        → IsFecState s
        → s.merkle_root ≡ some root
        → Runs env a (store_shard env a raw p v s)
    unfolding store_shard
    store_shard-Runs s root w rooted =
        let start = shard_offset v.kind in
        let shard = take (start + erasure_shard_size - start) (drop start raw) in
        let i = p.erasure_shard_index in
        let read =
          slice_lem {E = ⊥} raw start (start + erasure_shard_size) (omega arith)
            (region_fits v.kind (length raw) fits) in
        let tested = λ (m : Outcome ⊥ Bytes). m >>= λ shard.
        if leb 64 i
        then ok (put_state a (key_of v) s, rejected (index_out_of_range i) ∷ [])
        else place_shard env a v s i shard (get_elem? s.shards i) in
        elim (Bool-cases (leb 64 i)) [
          | inl e ↦ (
            (put_state a (key_of v) s, rejected (index_out_of_range i) ∷ []),
            ap tested read ∙ if_true _ _ e,
            rewrite_state s (rejected (index_out_of_range i)) w (λ slot. refl) (λ b. tt),
          )
          | inr e ↦
              let (r, same, step) =
                place_shard-Runs s i shard root w rooted (leb-false 64 i e) (get_elem? s.shards i)
                  refl in
              (r, ap tested read ∙ if_false _ _ e ∙ same, step)
        ]

    check_root_with-Runs :
        (s : FecState env.float.F)
        → IsFecState s
        → (o : Option Bytes) → s.merkle_root ≡ o
        → Runs env a (check_root_with env a raw p v s o)
    check_root_with-Runs s w none e =
        let rooted = record s { merkle_root = some v.merkle_root } in
        push_first a (started (key_of v) v.merkle_root) (store_shard env a raw p v rooted)
          (λ slot. refl) (λ b. tt)
          (store_shard-Runs rooted v.merkle_root
            (record {
              shard_count = w.shard_count;
              distinct = w.distinct;
              enough = w.enough;
              has_root = λ h. (v.merkle_root, refl);
            })
            refl)
    check_root_with-Runs s w (some existing) e =
        elim (Bool-cases (bytes_eq existing v.merkle_root)) [
          | inl t ↦
              let (r, same, step) = store_shard-Runs s existing w e in
              (r, if_true _ _ t ∙ same, step)
          | inr t ↦ (
            (put_state a (key_of v) s, rejected root_diverges ∷ []),
            if_false _ _ t,
            rewrite_state s (rejected root_diverges) w (λ slot. refl) (λ b. tt),
          )
        ]

  enter_states :
      (a : FecAssembler env.float.F) (v : VerifiedShred) (s : FecState env.float.F)
      → AllStates a
      → IsFecState s
      → AllStates (enter env.float a v s)
  unfolding enter
  enter_states a v s all w =
      let put = put_state a (key_of v) s in
      same_states put (enter env.float a v s) (sym (put_slot_states put v.slot _))
        (put_state-AllStates a (key_of v) s all w)

  enter_flag :
      (a : FecAssembler env.float.F) (v : VerifiedShred) (s : FecState env.float.F) (slot : ℕ)
      → flag_at (enter env.float a v s) slot ≡ flag_at a slot
  unfolding enter put_state
  enter_flag a v s slot =
      flag-put_slot (put_state a (key_of v) s) v.slot _ slot (flag-note_shred v (a.slots v.slot))

  -- A step from an assembler with the same flags.
  rebase :
      (a b : FecAssembler env.float.F) (m : Outcome ⊥ (Step env))
      → ((slot : ℕ) → flag_at b slot ≡ flag_at a slot)
      → Runs env b m
      → Runs env a m
  rebase a b m same (r, e, step) = (
    r,
    e,
    record {
      states = step.states;
      once = λ slot. omega (arith, step.once slot, same slot);
      reports = step.reports;
    },
  )

  pub accept-Runs :
      (a : FecAssembler env.float.F) (raw : Bytes) (p : ParsedShred) (v : VerifiedShred)
      → AllStates a
      → expected_len v.kind ≤ length raw
      → Runs env a (accept env a raw p v)
  unfolding accept check_root
  accept-Runs a raw p v all fits =
      let s = state_or_new env.float (a.states (key_of v)) in
      let w = state_or_new-IsFecState env.float (a.states (key_of v)) (all (key_of v)) in
      let entered = enter env.float a v s in
      let all_entered = enter_states a v s all w in
      rebase a entered _ (enter_flag a v s) (elim (Bool-cases s.is_reconstructed) [
        | inl e ↦
            (finish env entered v.slot, if_true _ _ e, finish-IsStep env entered v.slot all_entered)
        | inr e ↦
            let (r, same, step) =
              check_root_with-Runs entered raw p v all_entered fits s w s.merkle_root refl in
            (r, if_false _ _ e ∙ same, step)
      ])
