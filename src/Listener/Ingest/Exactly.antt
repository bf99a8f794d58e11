-- ===== src/Listener/Ingest/Exactly.antt =====
-- Shreds of one FEC set, with different indices: the 32nd reports the set, and no other does.
use lattica.Prelude.{
  ℕ, suc, ◌+◌, ◌≤◌, ◌<◌, some, List, [], ◌∷◌, ◌++◌, map, Bool-cases, ltb, ltb→lt, ltb-false, leb,
  le→leb, lt→leb_false, if◌then◌else◌, length, All, ◌≡◌, refl, sym, ap, subst, ◌∙◌, inl, inr, arith,
}
use mathlib.Core.Logic.{◌⊎◌}
use lattica.Prelude.Bytes.{Bytes}
use lattica.Prelude.Outcome.{Outcome, ok}
use lattica.Listener.State.{
  FecKey, Env, reconstructed, FecState, FecAssembler, put_state, put_slot, das_confidence,
}
use lattica.Listener.Ingest.{Step, key_of, complete_set, enter, ingest}
use lattica.Listener.Invariant.{put_state_self}
use lattica.Listener.Run.{ingest_all}
use lattica.Listener.Ingest.Complete.{
  IsRecovering, Delivery, IsDelivery, IsDistinct, IsCollecting, with_shard, accepted_event,
  with_shard-IsCollecting, store_shard-early, store_shard-last,
}
use lattica.Listener.Ingest.Enough.{
  IsEvent, IsEvent-front, IsEvent-back, Led, ingest-accept, put_state-Led, accept-later,
  complete_set-IsEvent,
}
use lattica.Listener.Ingest.After.{
  reconstruct_count, reconstruct_count-append, ingest_all-cons, complete_set-IsDone, after_done,
}

-- 1 if there are 32 at least.
abbrev pub recovered_by : ℕ → ℕ
recovered_by n = if leb 32 n then 1 else 0

-- A run over `n` shreds of the set returns. It reports a set as reconstructed once if `n` is 32 at
-- least and not at all otherwise, and the report is about this set.
pub record IsRecovery (env : Env) (key : FecKey) (root : Bytes) (n : ℕ) (m : Outcome ⊥ (Step env))
    : Type 0 where
  pub result : Step env
  pub runs : m ≡ ok result
  pub reports : reconstruct_count result.1 ≡ recovered_by n
  pub about : 32 ≤ n → IsEvent (reconstructed key root (das_confidence env.float 32)) result.1

pub last_or_before : (k : ℕ) → k ≤ 31 → (k ≡ 31) ⊎ (k < 31)
last_or_before k h = elim (Bool-cases (ltb k 31)) [
  | inl e ↦ inr (ltb→lt k 31 e)
  | inr e ↦ inl (omega (arith, ltb-false k 31 e))
]

module _ (env : Env) (leader : Bytes) (key : FecKey) (root : Bytes) where
  pub IsRecovery-cons :
      (a : FecAssembler env.float.F) (raw : Bytes) (raws : List Bytes) (r : Step env) (n : ℕ)
      → ingest env a raw ≡ ok r
      → reconstruct_count r.1 ≡ 0
      → IsRecovery env key root n (ingest_all env r.0 raws)
      → IsRecovery env key root n (ingest_all env a (raw ∷ raws))
  IsRecovery-cons a raw raws r n run silent rest =
      let q = rest.result in
      record {
        result = (q.0, r.1 ++ q.1);
        runs = ingest_all-cons env a raw raws r q run rest.runs;
        reports = omega (arith, reconstruct_count-append r.1 q.1, silent) ∙ rest.reports;
        about = λ h. IsEvent-back _ r.1 q.1 (rest.about h);
      }

  module _ (laws : IsRecovering env.rs) where
    -- The 32nd shred, and those after it.
    collect_last :
        (d : Delivery) (ds : List Delivery) (a : FecAssembler env.float.F)
        (s : FecState env.float.F)
        → Led env leader key root a
        → a.states key ≡ some s
        → IsCollecting root 31 (d ∷ ds) s
        → All (IsDelivery env leader key root) (d ∷ ds)
        → IsDistinct (d ∷ ds)
        → IsRecovery env key root (32 + length ds) (ingest_all env a (map (λ d. d.raw) (d ∷ ds)))
    collect_last d ds a s led here c all apart =
        let x = all.0 in
        let entered = enter env.float a d.shred s in
        let full = with_shard-IsCollecting env root d 31 ds s c x.fits apart.0 in
        let done = complete_set env entered d.shred (with_shard env root d s) root in
        let (is_done, once) =
          complete_set-IsDone env leader key root entered d.shred (with_shard env root d s)
            (unfold enter put_slot put_state in led) x.of_set in
        let (q, rest, silent) = after_done env leader key root ds done.0 is_done all.1 in
        let events = accepted_event env root d entered s ∷ done.1 in
        record {
          result = (q.0, events ++ q.1);
          runs =
              ingest_all-cons env a d.raw (map (λ d. d.raw) ds) (done.0, events) q
                (ingest-accept env leader key root a d led x
                  ∙ accept-later env leader key root a d s x here c.pending c.rooted
                  ∙ store_shard-last env root d entered ds s laws c x.fits x.low apart.0)
                rest;
          reports =
              omega (arith, reconstruct_count-append done.1 q.1, once, silent)
              ∙ sym (ap (λ b. if b then 1 else 0) (le→leb 32 (32 + length ds) (omega arith)));
          about = λ h. IsEvent-front _ events q.1 (
              inr (
                complete_set-IsEvent env leader key root entered d.shred (with_shard env root d s)
                  x.of_set full.seen));
        }

    pub collect :
        (ds : List Delivery) (a : FecAssembler env.float.F) (s : FecState env.float.F) (k : ℕ)
        → Led env leader key root a
        → a.states key ≡ some s
        → IsCollecting root k ds s
        → k ≤ 31
        → All (IsDelivery env leader key root) ds
        → IsDistinct ds
        → IsRecovery env key root (k + length ds) (ingest_all env a (map (λ d. d.raw) ds))
    collect [] a s k led here c few all apart = record {
      result = (a, []);
      runs = unfold ingest_all in refl;
      reports = sym (ap (λ b. if b then 1 else 0) (lt→leb_false 32 (k + 0) (omega (arith, few))));
      about = λ h. absurd (omega (arith, h, few));
    }
    collect (d ∷ ds) a s k led here c few all apart = elim (last_or_before k few) [
      | inl last ↦
          subst (λ n. IsRecovery env key root n (ingest_all env a (map (λ d. d.raw) (d ∷ ds))))
            (omega (arith, last))
            (collect_last d ds a s led here (subst (λ j. IsCollecting root j (d ∷ ds) s) last c) all
              apart)
      | inr before ↦
          let x = all.0 in
          let entered = enter env.float a d.shred s in
          let next = put_state entered (key_of d.shred) (with_shard env root d s) in
          subst (λ n. IsRecovery env key root n (ingest_all env a (map (λ d. d.raw) (d ∷ ds))))
            (omega arith)
            (IsRecovery-cons a d.raw (map (λ d. d.raw) ds)
              (next, accepted_event env root d entered s ∷ []) (suc k + length ds)
              (ingest-accept env leader key root a d led x
                ∙ accept-later env leader key root a d s x here c.pending c.rooted
                ∙ store_shard-early env root d entered k ds s c x.fits x.low
                    (omega (arith, before)))
              refl
              (collect ds next (with_shard env root d s) (suc k)
                (put_state-Led env leader key root a d.shred s (with_shard env root d s) led)
                (ap next.states (sym x.of_set)
                  ∙ put_state_self entered (key_of d.shred) (with_shard env root d s))
                (with_shard-IsCollecting env root d k ds s c x.fits apart.0) (omega (arith, before))
                all.1 apart.1))
    ]
