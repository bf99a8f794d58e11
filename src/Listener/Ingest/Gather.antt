-- ===== src/Listener/Ingest/Gather.antt =====
-- The run over the 32 shreds of a set that the assembler does not know.
use lattica.Prelude.{
  ℕ, suc, ◌+◌, ◌≤◌, none, some, List, [], ◌∷◌, map, length, All, ◌≡◌, refl, sym, ap, append-nil,
  subst, ◌∙◌, inl, inr, arith, Option,
}
use lattica.Prelude.Bytes.{Bytes}
use lattica.Prelude.Outcome.{ok, ◌>>=◌}
use lattica.Listener.State.{
  FecKey, Env, started, reconstructed, FecState, new_state, SlotState, slot_or_default, note_shred,
  FecAssembler, put_state, das_confidence,
}
use lattica.Listener.Ingest.{
  Step, key_of, finish, mark_reconstructed, done_state, after_events, enter, ingest,
}
use lattica.Listener.Invariant.{put_state_self}
use lattica.Listener.Run.{ingest_all}
use lattica.Listener.Ingest.Complete.{
  IsRecovering, Delivery, IsDelivery, IsDistinct, IsCollecting, with_shard, accepted_event,
  with_shard-IsCollecting, store_shard-early, store_shard-last,
}
use lattica.Listener.Ingest.Enough.{Led, ingest-accept, put_state-Led, accept-later, accept-first}
use lattica.Listener.Ingest.After.{ingest_all-cons}
use lattica.Listener.Ingest.Exactly.{last_or_before}
use lattica.Listener.Ingest.Fresh.{first_state, first_state-IsCollecting, all_low}
use lattica.Listener.Ingest.Whole.{
  IsWhole, entered_slot, entered_other, IsWhole-cons, mark_slot, mark_states, mark_leader,
  complete_set_lem,
}

module _ (env : Env) (leader : Bytes) (key : FecKey) (root : Bytes) (noted : SlotState) where
  module _ (laws : IsRecovering env.rs) where
    -- The last of the 32 shreds.
    IsWhole-last :
        (d : Delivery) (a : FecAssembler env.float.F) (s : FecState env.float.F)
        → Led env leader key root a
        → a.states key ≡ some s
        → IsCollecting root 31 (d ∷ []) s
        → IsDelivery env leader key root d
        → note_shred d.shred (slot_or_default (a.slots key.slot)) ≡ noted
        → IsWhole env leader key root a noted (ingest_all env a (d.raw ∷ []))
    IsWhole-last d a s led here c x note =
        let entered = enter env.float a d.shred s in
        let full = with_shard-IsCollecting env root d 31 [] s c x.fits tt in
        let t = done_state env.float (with_shard env root d s) in
        let saved = put_state entered (key_of d.shred) t in
        let marked = mark_reconstructed saved d.shred in
        let completed =
          complete_set_lem env leader key root noted entered d.shred (with_shard env root d s)
            x.of_set marked refl in
        let end = finish env marked key.slot in
        let fed : Step env = (
          end.0,
          accepted_event env root d entered s
              ∷ reconstructed (key_of d.shred) root
                  (das_confidence env.float (with_shard env root d s).distinct_seen)
              ∷ end.1,
        ) in
        let run : ingest env a d.raw ≡ ok fed =
          ingest-accept env leader key root a d led x
          ∙ accept-later env leader key root a d s x here c.pending c.rooted
          ∙ store_shard-last env root d entered [] s laws c x.fits x.low tt
          ∙ ap (λ m. ok m >>= after_events env (accepted_event env root d entered s ∷ []))
              completed in
        let stored = entered_slot env leader key root noted a d.shred s t x.of_set note in
        record {
          before = marked;
          events =
              accepted_event env root d entered s
              ∷ reconstructed (key_of d.shred) root
                  (das_confidence env.float (with_shard env root d s).distinct_seen)
              ∷ [];
          runs =
              ingest_all-cons env a d.raw [] fed (fed.0, []) run (unfold ingest_all in refl)
              ∙ ap (λ es. ok (fed.0, es)) (append-nil fed.1);
          silent = refl;
          led = λ n.
              ap (λ (g : ℕ → Option Bytes). g n)
                (mark_leader env leader key root noted saved d.shred)
              ∙ put_state-Led env leader key root a d.shred s t led n;
          state = t;
          known =
              ap (λ (m : FecKey → Option (FecState env.float.F)). m key)
                (mark_states env leader key root noted saved d.shred)
              ∙ ap saved.states (sym x.of_set)
              ∙ put_state_self entered (key_of d.shred) t;
          rooted = full.rooted;
          seen = full.seen;
          confident = unfold das_confidence in ap (das_confidence env.float) full.seen;
          kept = λ j h.
              ap (λ (m : FecKey → Option (FecState env.float.F)). m j)
                (mark_states env leader key root noted saved d.shred)
              ∙ entered_other env leader key root noted a d.shred s t x.of_set j h;
          slot_known = mark_slot env leader key root noted saved d.shred x.of_set stored;
        }

    gather_last :
        (d : Delivery) (ds : List Delivery) (a : FecAssembler env.float.F)
        (s : FecState env.float.F)
        → length ds ≡ 0
        → Led env leader key root a
        → a.states key ≡ some s
        → IsCollecting root 31 (d ∷ ds) s
        → IsDelivery env leader key root d
        → note_shred d.shred (slot_or_default (a.slots key.slot)) ≡ noted
        → IsWhole env leader key root a noted (ingest_all env a (map (λ d. d.raw) (d ∷ ds)))
    gather_last d [] a s e led here c x note = IsWhole-last d a s led here c x note
    gather_last d (next ∷ ds) a s e led here c x note = absurd (omega (arith, e))

    -- The shreds after the first.
    gather :
        (ds : List Delivery) (a : FecAssembler env.float.F) (s : FecState env.float.F) (k : ℕ)
        → k + length ds ≡ 32
        → k ≤ 31
        → Led env leader key root a
        → a.states key ≡ some s
        → a.slots key.slot ≡ some noted
        → IsCollecting root k ds s
        → All (IsDelivery env leader key root) ds
        → All (λ d. note_shred d.shred noted ≡ noted) ds
        → IsDistinct ds
        → IsWhole env leader key root a noted (ingest_all env a (map (λ d. d.raw) ds))
    gather [] a s k all few led here there c valid notes apart = absurd (omega (arith, all, few))
    gather (d ∷ ds) a s k all few led here there c valid notes apart =
        let x = valid.0 in
        let note : note_shred d.shred (slot_or_default (a.slots key.slot)) ≡ noted =
          ap (λ o. note_shred d.shred (slot_or_default o)) there ∙ notes.0 in
        elim (last_or_before k few) [
          | inl last ↦
              gather_last d ds a s (omega (arith, all, last)) led here
                (subst (λ j. IsCollecting root j (d ∷ ds) s) last c) x note
          | inr before ↦
              let entered = enter env.float a d.shred s in
              let t = with_shard env root d s in
              let next = put_state entered (key_of d.shred) t in
              IsWhole-cons env leader key root noted a d.raw (map (λ d. d.raw) ds)
                (next, accepted_event env root d entered s ∷ [])
                (ingest-accept env leader key root a d led x
                  ∙ accept-later env leader key root a d s x here c.pending c.rooted
                  ∙ store_shard-early env root d entered k ds s c x.fits x.low
                      (omega (arith, before)))
                refl (entered_other env leader key root noted a d.shred s t x.of_set)
                (gather ds next t (suc k) (omega (arith, all)) (omega (arith, before))
                  (put_state-Led env leader key root a d.shred s t led)
                  (ap next.states (sym x.of_set) ∙ put_state_self entered (key_of d.shred) t)
                  (entered_slot env leader key root noted a d.shred s t x.of_set note)
                  (with_shard-IsCollecting env root d k ds s c x.fits apart.0) valid.1 notes.1
                  apart.1)
        ]

    -- Fed with 32 different shreds of a set that it does not know, the assembler collects the set, and
    -- its last step is `finish`.
    pub ingest_all-IsWhole :
        (ds : List Delivery) (a : FecAssembler env.float.F)
        → length ds ≡ 32
        → Led env leader key root a
        → a.states key ≡ none
        → All (IsDelivery env leader key root) ds
        → All (λ d. note_shred d.shred (slot_or_default (a.slots key.slot)) ≡ noted) ds
        → All (λ d. note_shred d.shred noted ≡ noted) ds
        → IsDistinct ds
        → IsWhole env leader key root a noted (ingest_all env a (map (λ d. d.raw) ds))
    ingest_all-IsWhole [] a all led fresh valid first notes apart = absurd (omega (arith, all))
    ingest_all-IsWhole (d ∷ ds) a all led fresh valid first notes apart =
        let x = valid.0 in
        let s = first_state env.float d.shred.merkle_root in
        let c =
          first_state-IsCollecting env.float d.shred.merkle_root root (d ∷ ds) x.of_root
            (all_low env leader key root (d ∷ ds) valid) in
        let entered = enter env.float a d.shred (new_state env.float) in
        let t = with_shard env root d s in
        let next = put_state entered (key_of d.shred) t in
        IsWhole-cons env leader key root noted a d.raw (map (λ d. d.raw) ds)
          (
            next,
            started (key_of d.shred) d.shred.merkle_root ∷ accepted_event env root d entered s ∷ [],
          )
          (ingest-accept env leader key root a d led x
            ∙ accept-first env leader key root a d x fresh
            ∙ ap (λ m. m >>= after_events env (started (key_of d.shred) d.shred.merkle_root ∷ []))
                (store_shard-early env root d entered 0 ds s c x.fits x.low (omega arith)))
          refl (entered_other env leader key root noted a d.shred (new_state env.float) t x.of_set)
          (gather ds next t 1 (omega (arith, all)) (omega arith)
            (put_state-Led env leader key root a d.shred (new_state env.float) t led)
            (ap next.states (sym x.of_set) ∙ put_state_self entered (key_of d.shred) t)
            (entered_slot env leader key root noted a d.shred (new_state env.float) t x.of_set
              first.0)
            (with_shard-IsCollecting env root d 0 ds s c x.fits apart.0) valid.1 notes.1 apart.1)
