-- ===== src/Listener/Ingest/After.antt =====
-- The shreds of a FEC set that come after it is reconstructed.
use lattica.Prelude.{
  ℕ, ◌+◌, true, Option, some, List, [], ◌∷◌, ◌++◌, map, if◌then◌else◌, if_true, All, ◌≡◌, refl, sym,
  ap, ◌∙◌, inl, inr, arith,
}
use lattica.Prelude.Bytes.{Bytes}
use lattica.Prelude.Outcome.{ok}
use lattica.Shred.Verify.{VerifiedShred}
use lattica.Listener.State.{
  FecKey, Env, FecEvent, Event, started, shred_accepted, reconstructed, slot_finalized, rejected,
  FecState, FecAssembler, put_state, put_slot, state_or_new,
}
use lattica.Listener.Finalize.Once.{FinalEvents, finish_cases}
use lattica.Listener.Ingest.{
  Step, key_of, finish, mark_reconstructed, done_state, complete_set, check_root, enter, accept,
  ingest,
}
use lattica.Listener.Invariant.{put_state_self}
use lattica.Listener.Run.{ingest_all}
use lattica.Listener.Ingest.Complete.{Delivery, IsDelivery}
use lattica.Listener.Ingest.Enough.{Led, ingest-accept}

-- How many of the events report a set as reconstructed.
abbrev pub reconstructs : {F R : Type 0} → FecEvent F R → ℕ
reconstructs (started k root) = 0
reconstructs (shred_accepted k n i) = 0
reconstructs (reconstructed k root das) = 1
reconstructs (slot_finalized s roots root total das) = 0
reconstructs (rejected r) = 0

abbrev pub reconstruct_count : {F R : Type 0} → List (FecEvent F R) → ℕ
reconstruct_count [] = 0
reconstruct_count (e ∷ es) = reconstructs e + reconstruct_count es

pub reconstruct_count-append :
    {F R : Type 0} (es fs : List (FecEvent F R))
    → reconstruct_count (es ++ fs) ≡ reconstruct_count es + reconstruct_count fs
reconstruct_count-append [] fs = omega arith
reconstruct_count-append (e ∷ es) fs = omega (arith, reconstruct_count-append es fs)

-- What `finish` leaves alone.
record IsKept (env : Env) (a : FecAssembler env.float.F) (r : Step env) : Type 0 where
  same_states : r.0.states ≡ a.states
  same_leader : r.0.leader_for_slot ≡ a.leader_for_slot
  silent : reconstruct_count r.1 ≡ 0

final_silent :
    (env : Env) (slot : ℕ) (es : List (Event env))
    → FinalEvents env slot es
    → reconstruct_count es ≡ 0
final_silent env slot es (inl e) = ap reconstruct_count e
final_silent env slot es (inr (roots, total, das, e)) = ap reconstruct_count e

finish-IsKept :
    (env : Env) (a : FecAssembler env.float.F) (slot : ℕ) → IsKept env a (finish env a slot)
unfolding put_slot
finish-IsKept env a slot = elim (finish_cases env a slot) [
  | inl e ↦ rw e (record { same_states = refl; same_leader = refl; silent = refl })
  | inr z ↦ rw z.outcome (record {
    same_states = refl;
    same_leader = refl;
    silent = final_silent env slot z.events z.shape;
  })
]

-- Two packets fed one after the other, and those after them.
pub ingest_all-cons :
    (env : Env) (a : FecAssembler env.float.F) (raw : Bytes) (raws : List Bytes) (r q : Step env)
    → ingest env a raw ≡ ok r
    → ingest_all env r.0 raws ≡ ok q
    → ingest_all env a (raw ∷ raws) ≡ ok (q.0, r.1 ++ q.1)
unfolding ingest_all
ingest_all-cons env a raw raws r q run rest = rw (run, rest) refl

module _ (env : Env) (leader : Bytes) (key : FecKey) (root : Bytes) where
  -- The set is reconstructed, and the leader of every slot is known.
  pub record IsDone (a : FecAssembler env.float.F) : Type 0 where
    pub led : Led env leader key root a
    pub state : FecState env.float.F
    pub known : a.states key ≡ some state
    pub complete : state.is_reconstructed ≡ true

  finish-IsDone :
      (a : FecAssembler env.float.F) (slot : ℕ) → IsDone a → IsDone (finish env a slot).0
  finish-IsDone a slot d =
      let k = finish-IsKept env a slot in
      record {
        led = λ s. ap (λ (f : ℕ → Option Bytes). f s) k.same_leader ∙ d.led s;
        state = d.state;
        known = ap (λ (m : FecKey → Option (FecState env.float.F)). m key) k.same_states ∙ d.known;
        complete = d.complete;
      }

  enter-IsDone :
      (a : FecAssembler env.float.F) (v : VerifiedShred) (d : IsDone a)
      → key_of v ≡ key
      → IsDone (enter env.float a v d.state)
  unfolding enter put_slot
  enter-IsDone a v d e = record {
    led = unfold put_state in d.led;
    state = d.state;
    known =
        ap (put_state a (key_of v) d.state).states (sym e) ∙ put_state_self a (key_of v) d.state;
    complete = d.complete;
  }

  -- The assembler that has just completed the set.
  pub complete_set-IsDone :
      (a : FecAssembler env.float.F) (v : VerifiedShred) (s : FecState env.float.F)
      → Led env leader key root a
      → key_of v ≡ key
      → IsDone (complete_set env a v s root).0
        × (reconstruct_count (complete_set env a v s root).1 ≡ 1)
  unfolding complete_set
  complete_set-IsDone a v s led e =
      let saved = put_state a (key_of v) (done_state env.float s) in
      let marked = mark_reconstructed saved v in
      let d : IsDone marked =
        unfold mark_reconstructed put_slot in
        record {
          led = unfold put_state in led;
          state = done_state env.float s;
          known = ap saved.states (sym e) ∙ put_state_self a (key_of v) (done_state env.float s);
          complete = refl;
        } in
      (finish-IsDone marked v.slot d, omega (arith, (finish-IsKept env marked v.slot).silent))

  accept-done :
      (a : FecAssembler env.float.F) (d : Delivery) (done : IsDone a)
      → IsDelivery env leader key root d
      → accept env a d.raw d.parse d.shred
        ≡ ok (finish env (enter env.float a d.shred done.state) d.shred.slot)
  unfolding accept
  accept-done a d done x =
      let v = d.shred in
      ap
        (λ o.
          let s = state_or_new env.float o in
          let entered = enter env.float a v s in
          if s.is_reconstructed
          then ok (finish env entered v.slot)
          else check_root env entered d.raw d.parse v s)
        (ap a.states x.of_set ∙ done.known)
      ∙ if_true _ _ done.complete

  -- Further shreds of the set are let through without another report.
  pub after_done :
      (ds : List Delivery) (a : FecAssembler env.float.F)
      → IsDone a
      → All (IsDelivery env leader key root) ds
      → (r : Step env) × (ingest_all env a (map (λ d. d.raw) ds) ≡ ok r)
        × (reconstruct_count r.1 ≡ 0)
  after_done [] a done all = ((a, []), unfold ingest_all in refl, refl)
  after_done (d ∷ ds) a done all =
      let entered = enter env.float a d.shred done.state in
      let r = finish env entered d.shred.slot in
      let kept = finish-IsKept env entered d.shred.slot in
      let (q, rest, silent) =
        after_done ds r.0
          (finish-IsDone entered d.shred.slot (enter-IsDone a d.shred done all.0.of_set)) all.1 in
      (
        (q.0, r.1 ++ q.1),
        ingest_all-cons env a d.raw (map (λ d. d.raw) ds) r q
            (ingest-accept env leader key root a d done.led all.0 ∙ accept-done a d done all.0)
            rest,
        omega (arith, reconstruct_count-append r.1 q.1, silent, kept.silent),
      )
