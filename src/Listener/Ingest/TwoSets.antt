-- ===== src/Listener/Ingest/TwoSets.antt =====
-- A slot of two FEC sets, the second with the last shred of the slot.
use lattica.Prelude.{
  ℕ, ◌<◌, true, false, Option, some, List, [], ◌∷◌, ◌++◌, map, length, All, ◌≡◌, refl, sym, ap,
  subst, ◌∙◌, arith, ◌==◌, ==_iff, Bool-cases, inl, inr,
}
use lattica.Prelude.Bytes.{Bytes}
use lattica.Prelude.Outcome.{ok}
use lattica.Shred.Verify.{is_last_in_slot}
use lattica.Listener.State.{
  FecKey, key_eq, Env, slot_finalized, SlotState, default_slot, slot_or_default, note_shred, insert,
  new_assembler,
}
use lattica.Listener.Finalize.{aggregate_root}
use lattica.Listener.Ingest.{Step, finish}
use lattica.Listener.Run.{ingest_all}
use lattica.Listener.Ingest.Complete.{IsRecovering, Delivery, IsDelivery, IsDistinct}
use lattica.Listener.Ingest.Enough.{IsEvent, IsEvent-back}
use lattica.Listener.Ingest.Whole.{final_total, final_total-append}
use lattica.Listener.Ingest.Gather.{ingest_all-IsWhole}
use lattica.Listener.Ingest.Entry.{
  one_set, two_sets, above, insert_above, note_one, note_two, finish_waiting, finish_two,
  two_sets_confidence,
}

-- The run over the shreds of the first set and the run over those of the second: the slot is finalized
-- once, in the second, with both roots.
pub record IsFinalized (env : Env) (leader : Bytes) (slot : ℕ) (root_a root_b : Bytes)
    (raws_a raws_b : List Bytes) : Type 0 where
  pub first : Step env
  pub runs_first : ingest_all env (new_assembler leader) raws_a ≡ ok first
  pub silent : final_total first.1 ≡ 0
  pub second : Step env
  pub runs_second : ingest_all env first.0 raws_b ≡ ok second
  pub once : final_total second.1 ≡ 1
  pub event :
      IsEvent
        (slot_finalized slot
          (root_a ∷ root_b ∷ [])
          (aggregate_root env.sha (root_a ∷ root_b ∷ []))
          64
          (two_sets_confidence env))
        second.1

module _ (env : Env) (leader : Bytes) (slot i j : ℕ) (root_a root_b : Bytes) (h : i < j) where
  abbrev first_key : FecKey
  first_key = record { slot = slot; fec_set_index = i }

  abbrev second_key : FecKey
  second_key = record { slot = slot; fec_set_index = j }

  apart_keys : (key_eq first_key second_key ≡ false) × (key_eq second_key first_key ≡ false)
  apart_keys = elim (Bool-cases (i == j)) [
    | inl e ↦ let same : i ≡ j = (==_iff i j).0 e in absurd (omega (arith, h, same))
    | inr e ↦
        (rw ((==_iff slot slot).1 refl, e) refl, rw ((==_iff slot slot).1 refl, above i j h) refl)
  ]

  notes_one :
      (ds : List Delivery)
      → All (IsDelivery env leader first_key root_a) ds
      → All (λ d. is_last_in_slot d.shred ≡ false) ds
      → All (λ d. note_shred d.shred default_slot ≡ one_set i) ds
        × All (λ d. note_shred d.shred (one_set i) ≡ one_set i) ds
  notes_one [] valid last = (tt, tt)
  notes_one (d ∷ ds) valid last =
      let (enter_one, again) =
        note_one d.shred i (ap (λ (k : FecKey). k.fec_set_index) valid.0.of_set) last.0 in
      let (rest, others) = notes_one ds valid.1 last.1 in ((enter_one, rest), (again, others))

  notes_two :
      (o : Option SlotState) (ds : List Delivery)
      → o ≡ some (record (one_set i) { reconstructed_fec_indices = i ∷ [] })
      → All (IsDelivery env leader second_key root_b) ds
      → All (λ d. is_last_in_slot d.shred ≡ true) ds
      → All (λ d. note_shred d.shred (slot_or_default o) ≡ two_sets i j) ds
        × All (λ d. note_shred d.shred (two_sets i j) ≡ two_sets i j) ds
  notes_two o [] was valid last = (tt, tt)
  notes_two o (d ∷ ds) was valid last =
      let (enter_two, again) =
        note_two d.shred i j h (ap (λ (k : FecKey). k.fec_set_index) valid.0.of_set) last.0 in
      let (rest, others) = notes_two o ds was valid.1 last.1 in
      ((ap (λ o. note_shred d.shred (slot_or_default o)) was ∙ enter_two, rest), (again, others))

  pub ingest_all-IsFinalized :
      (ds es : List Delivery)
      → IsRecovering env.rs
      → length ds ≡ 32
      → All (IsDelivery env leader first_key root_a) ds
      → IsDistinct ds
      → All (λ d. is_last_in_slot d.shred ≡ false) ds
      → length es ≡ 32
      → All (IsDelivery env leader second_key root_b) es
      → IsDistinct es
      → All (λ d. is_last_in_slot d.shred ≡ true) es
      → IsFinalized env leader slot root_a root_b (map (λ d. d.raw) ds) (map (λ d. d.raw) es)
  ingest_all-IsFinalized ds es laws count valid apart open_slot count_b valid_b apart_b last =
      let (into_one, in_one) = notes_one ds valid open_slot in
      let w =
        ingest_all-IsWhole env leader first_key root_a (one_set i) laws ds (new_assembler leader)
          count (λ n. refl) refl valid into_one in_one apart in
      let was : w.before.slots slot
          ≡ some (record (one_set i) { reconstructed_fec_indices = i ∷ [] }) =
        unfold insert in w.slot_known in
      let idle = finish_waiting env w.before slot _ was refl refl in
      let (into_two, in_two) = notes_two (w.before.slots slot) es was valid_b last in
      let z =
        ingest_all-IsWhole env leader second_key root_b (two_sets i j) laws es w.before count_b
          w.led (w.kept second_key apart_keys.1) valid_b into_two in_two apart_b in
      let final =
        finish_two env z.before slot i j root_a root_b h
          (z.slot_known
            ∙ ap (λ is. some (record (two_sets i j) { reconstructed_fec_indices = is }))
                (insert_above i j h))
          (record {
            state = w.state;
            known = z.kept first_key apart_keys.0 ∙ w.known;
            rooted = w.rooted;
            seen = w.seen;
            confident = w.confident;
          })
          (record {
            state = z.state;
            known = z.known;
            rooted = z.rooted;
            seen = z.seen;
            confident = z.confident;
          }) in
      let end = finish env z.before slot in
      record {
        first = (w.before, w.events ++ []);
        runs_first = w.runs ∙ ap (λ (r : Step env). ok (r.0, w.events ++ r.1)) idle;
        silent = omega (arith, final_total-append w.events [], w.silent);
        second = (end.0, z.events ++ end.1);
        runs_second = z.runs;
        once = omega (arith, final_total-append z.events end.1, z.silent, ap final_total final);
        event = IsEvent-back _ z.events end.1 (subst (IsEvent _) (sym final) (inl refl));
      }
