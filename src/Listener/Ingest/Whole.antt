-- ===== src/Listener/Ingest/Whole.antt =====
-- 32 shreds of a FEC set fed to an assembler that may hold other sets: the set's slot and the other
-- sets' states.
use lattica.Prelude.{
  ℕ, ◌+◌, false, some, List, [], ◌∷◌, ◌++◌, ◌≡◌, refl, sym, ap, append_assoc, ◌∙◌, arith, ==_iff,
  Option,
}
use lattica.Prelude.Bytes.{Bytes}
use lattica.Prelude.Outcome.{Outcome, ok}
use lattica.Shred.Verify.{VerifiedShred}
use lattica.Listener.State.{
  FecKey, key_eq, F64, Env, FecEvent, started, shred_accepted, reconstructed, slot_finalized,
  rejected, Event, FecState, SlotState, slot_or_default, note_shred, insert, FecAssembler,
  put_state, put_slot, das_confidence,
}
use lattica.Listener.Ingest.{
  Step, key_of, finish, mark_reconstructed, done_state, complete_set, enter, ingest,
}
use lattica.Listener.Run.{ingest_all}
use lattica.Listener.Ingest.Enough.{Led}
use lattica.Listener.Ingest.After.{ingest_all-cons}

-- How many of the events finalize a slot.
abbrev pub finalizes : {F R : Type 0} → FecEvent F R → ℕ
finalizes (started k root) = 0
finalizes (shred_accepted k n i) = 0
finalizes (reconstructed k root das) = 0
finalizes (slot_finalized s roots root total das) = 1
finalizes (rejected r) = 0

abbrev pub final_total : {F R : Type 0} → List (FecEvent F R) → ℕ
final_total [] = 0
final_total (e ∷ es) = finalizes e + final_total es

pub final_total-append :
    {F R : Type 0} (es fs : List (FecEvent F R))
    → final_total (es ++ fs) ≡ final_total es + final_total fs
final_total-append [] fs = omega arith
final_total-append (e ∷ es) fs = omega (arith, final_total-append es fs)

module _ (f : F64) (a : FecAssembler f.F) where
  put_state_other :
      (j k : FecKey) (s : FecState f.F)
      → key_eq j k ≡ false
      → (put_state a k s).states j ≡ a.states j
  unfolding put_state
  put_state_other j k s h = rw h refl

  put_slot_self : (at slot : ℕ) (s : SlotState) → at ≡ slot → (put_slot a at s).slots slot ≡ some s
  unfolding put_slot
  put_slot_self at slot s e = rw (e, (==_iff slot slot).1 refl) refl

-- The assembler `b` before `finish`, which is all that is left of the run.
pub record IsWhole (env : Env) (leader : Bytes) (key : FecKey) (root : Bytes)
    (a : FecAssembler env.float.F) (noted : SlotState) (m : Outcome ⊥ (Step env)) : Type 0 where
  pub before : FecAssembler env.float.F
  pub events : List (Event env)
  pub runs : m ≡ ok ((finish env before key.slot).0, events ++ (finish env before key.slot).1)
  pub silent : final_total events ≡ 0
  pub led : Led env leader key root before
  pub state : FecState env.float.F
  pub known : before.states key ≡ some state
  pub rooted : state.merkle_root ≡ some root
  pub seen : state.distinct_seen ≡ 32
  pub confident : state.das_confidence_at_reconstruct ≡ env.float.of_nat 1
  pub kept : (j : FecKey) → key_eq j key ≡ false → before.states j ≡ a.states j
  pub slot_known :
      before.slots key.slot
      ≡ some (record noted {
        reconstructed_fec_indices = insert key.fec_set_index noted.reconstructed_fec_indices;
      })

-- The entry of a slot once the set at `idx` is marked in it.
abbrev marked_slot : ℕ → Option SlotState → SlotState
marked_slot idx o =
    let s = slot_or_default o in
    record s { reconstructed_fec_indices = insert idx s.reconstructed_fec_indices }

module _ (env : Env) (leader : Bytes) (key : FecKey) (root : Bytes) (noted : SlotState) where
  -- What a shred's entry leaves, once a state is written back.
  pub entered_slot :
      (a : FecAssembler env.float.F) (v : VerifiedShred) (s t : FecState env.float.F)
      → key_of v ≡ key
      → note_shred v (slot_or_default (a.slots key.slot)) ≡ noted
      → (put_state (enter env.float a v s) (key_of v) t).slots key.slot ≡ some noted
  unfolding put_state enter
  entered_slot a v s t e h =
      let at : v.slot ≡ key.slot = ap (λ (k : FecKey). k.slot) e in
      put_slot_self env.float (put_state a (key_of v) s) v.slot key.slot _ at
      ∙ ap some (ap (λ n. note_shred v (slot_or_default (a.slots n))) at ∙ h)

  pub entered_other :
      (a : FecAssembler env.float.F) (v : VerifiedShred) (s t : FecState env.float.F)
      → key_of v ≡ key
      → (j : FecKey) → key_eq j key ≡ false
      → (put_state (enter env.float a v s) (key_of v) t).states j ≡ a.states j
  unfolding enter put_slot
  entered_other a v s t e j h =
      let apart : key_eq j (key_of v) ≡ false = ap (key_eq j) e ∙ h in
      put_state_other env.float (enter env.float a v s) j (key_of v) t apart
      ∙ put_state_other env.float a j (key_of v) s apart

  pub IsWhole-cons :
      (a : FecAssembler env.float.F) (raw : Bytes) (raws : List Bytes) (r : Step env)
      → ingest env a raw ≡ ok r
      → final_total r.1 ≡ 0
      → ((j : FecKey) → key_eq j key ≡ false → r.0.states j ≡ a.states j)
      → IsWhole env leader key root r.0 noted (ingest_all env r.0 raws)
      → IsWhole env leader key root a noted (ingest_all env a (raw ∷ raws))
  IsWhole-cons a raw raws r run silent same w = record {
    before = w.before;
    events = r.1 ++ w.events;
    runs =
        ingest_all-cons env a raw raws r _ run w.runs
        ∙ ap (λ es. ok ((finish env w.before key.slot).0, es))
            (sym (append_assoc r.1 w.events (finish env w.before key.slot).1));
    silent = omega (arith, final_total-append r.1 w.events, silent, w.silent);
    led = w.led;
    state = w.state;
    known = w.known;
    rooted = w.rooted;
    seen = w.seen;
    confident = w.confident;
    kept = λ j h. w.kept j h ∙ same j h;
    slot_known = w.slot_known;
  }

  pub mark_slot :
      (a : FecAssembler env.float.F) (v : VerifiedShred)
      → key_of v ≡ key
      → a.slots key.slot ≡ some noted
      → (mark_reconstructed a v).slots key.slot ≡ some (marked_slot key.fec_set_index (some noted))
  unfolding mark_reconstructed
  mark_slot a v e h =
      put_slot_self env.float a v.slot key.slot (marked_slot v.fec_set_index (a.slots v.slot))
        (ap (λ (k : FecKey). k.slot) e)
      ∙ ap (λ (k : FecKey). some (marked_slot k.fec_set_index (a.slots k.slot))) e
      ∙ ap (λ o. some (marked_slot key.fec_set_index o)) h

  pub mark_states :
      (a : FecAssembler env.float.F) (v : VerifiedShred)
      → (mark_reconstructed a v).states ≡ a.states
  unfolding mark_reconstructed put_slot
  mark_states a v = refl

  pub mark_leader :
      (a : FecAssembler env.float.F) (v : VerifiedShred)
      → (mark_reconstructed a v).leader_for_slot ≡ a.leader_for_slot
  unfolding mark_reconstructed put_slot
  mark_leader a v = refl

  pub complete_set_lem :
      (a : FecAssembler env.float.F) (v : VerifiedShred) (s : FecState env.float.F)
      → key_of v ≡ key
      → (b : FecAssembler env.float.F)
      → mark_reconstructed (put_state a (key_of v) (done_state env.float s)) v ≡ b
      → complete_set env a v s root ≡ (
        (finish env b key.slot).0,
        reconstructed (key_of v) root (das_confidence env.float s.distinct_seen)
            ∷ (finish env b key.slot).1,
      )
  unfolding complete_set
  complete_set_lem a v s e b h =
      let finished = λ (c : FecAssembler env.float.F) (n : ℕ).
        let end = finish env c n in
        let step : Step env = (
          end.0,
          reconstructed (key_of v) root (das_confidence env.float s.distinct_seen) ∷ end.1,
        ) in
        step in
      ap (λ c. finished c v.slot) h ∙ ap (λ (k : FecKey). finished b k.slot) e
