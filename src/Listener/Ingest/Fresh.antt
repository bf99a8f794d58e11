-- ===== src/Listener/Ingest/Fresh.antt =====
-- The first shred that a new assembler is fed with, and those after it.
use lattica.Prelude.{
  ℕ, zero, suc, ◌<◌, Option, none, some, List, [], ◌∷◌, map, length, get_elem?, replicate, All,
  All-replicate, ◌≡◌, refl, sym, ap, subst, ◌∙◌, arith,
}
use lattica.Prelude.Bytes.{Bytes}
use lattica.Prelude.Outcome.{◌>>=◌}
use lattica.Listener.State.{
  FecKey, F64, Env, started, FecState, new_state, FecAssembler, new_assembler, put_state,
}
use lattica.Listener.Ingest.{key_of, after_events, enter}
use lattica.Listener.Invariant.{new_state-IsFecState, put_state_self}
use lattica.Listener.Run.{ingest_all}
use lattica.Listener.Ingest.Complete.{
  IsPlace, IsRecovering, Delivery, index_of, IsDelivery, IsDistinct, IsCollecting, with_shard,
  accepted_event, with_shard-IsCollecting, store_shard-early,
}
use lattica.Listener.Ingest.Enough.{ingest-accept, put_state-Led, accept-first}
use lattica.Listener.Ingest.Exactly.{IsRecovery, IsRecovery-cons, collect}

get_elem?-replicate :
    (n i : ℕ) → i < n → get_elem? (replicate {A = Option Bytes} n none) i ≡ some none
get_elem?-replicate zero i h = elim h [ ]
get_elem?-replicate (suc n) zero h = refl
get_elem?-replicate (suc n) (suc i) h = get_elem?-replicate n i (omega arith)

-- The state that the first shred of a set finds, once the root is captured.
abbrev pub first_state : (f : F64) → Bytes → FecState f.F
first_state f root = record (new_state f) { merkle_root = some root }

pub first_state-IsCollecting :
    (f : F64) (captured root : Bytes) (ds : List Delivery)
    → captured ≡ root
    → All (λ d. index_of d < 64) ds
    → IsCollecting root 0 ds (first_state f captured)
first_state-IsCollecting f captured root ds e low =
    let w = new_state-IsFecState f in
    record {
      valid = record {
        shard_count = w.shard_count;
        distinct = w.distinct;
        enough = λ h. cc;
        has_root = λ h. elim h [ ];
      };
      places = All-replicate IsPlace 64 none tt;
      rooted = ap some e;
      pending = refl;
      seen = refl;
      free = all_free ds low;
    }
  where
    all_free :
        (ds : List Delivery)
        → All (λ d. index_of d < 64) ds
        → All (λ d. get_elem? (replicate {A = Option Bytes} 64 none) (index_of d) ≡ some none) ds
    all_free [] h = tt
    all_free (d ∷ ds) h = (get_elem?-replicate 64 (index_of d) h.0, all_free ds h.1)

pub all_low :
    (env : Env) (leader : Bytes) (key : FecKey) (root : Bytes) (ds : List Delivery)
    → All (IsDelivery env leader key root) ds
    → All (λ d. index_of d < 64) ds
all_low env leader key root [] h = tt
all_low env leader key root (d ∷ ds) h = (h.0.low, all_low env leader key root ds h.1)

-- Fed with shreds of one FEC set, with different indices, a new assembler reports the set as soon as
-- there are 32, and once.
pub ingest_all-IsRecovery :
    (env : Env) (leader : Bytes) (key : FecKey) (root : Bytes) (ds : List Delivery)
    → IsRecovering env.rs
    → All (IsDelivery env leader key root) ds
    → IsDistinct ds
    → IsRecovery env key root
        (length ds)
        (ingest_all env (new_assembler leader) (map (λ d. d.raw) ds))
ingest_all-IsRecovery env leader key root [] laws all apart = record {
  result = (new_assembler leader, []);
  runs = unfold ingest_all in refl;
  reports = refl;
  about = λ h. elim h [ ];
}
ingest_all-IsRecovery env leader key root (d ∷ ds) laws all apart =
    let x = all.0 in
    let a : FecAssembler env.float.F = new_assembler leader in
    let s = first_state env.float d.shred.merkle_root in
    let c =
      first_state-IsCollecting env.float d.shred.merkle_root root (d ∷ ds) x.of_root
        (all_low env leader key root (d ∷ ds) all) in
    let entered = enter env.float a d.shred (new_state env.float) in
    let next = put_state entered (key_of d.shred) (with_shard env root d s) in
    IsRecovery-cons env leader key root a d.raw (map (λ d. d.raw) ds)
      (
        next,
        started (key_of d.shred) d.shred.merkle_root ∷ accepted_event env root d entered s ∷ [],
      )
      (length (d ∷ ds))
      (ingest-accept env leader key root a d (λ slot. refl) x
        ∙ accept-first env leader key root a d x refl
        ∙ ap (λ m. m >>= after_events env (started (key_of d.shred) d.shred.merkle_root ∷ []))
            (store_shard-early env root d entered 0 ds s c x.fits x.low (omega arith)))
      refl
      (subst (λ n. IsRecovery env key root n (ingest_all env next (map (λ d. d.raw) ds)))
        (omega arith)
        (collect env leader key root laws ds next (with_shard env root d s) 1
          (put_state-Led env leader key root a d.shred (new_state env.float)
            (with_shard env root d s) (λ slot. refl))
          (ap next.states (sym x.of_set)
            ∙ put_state_self entered (key_of d.shred) (with_shard env root d s))
          (with_shard-IsCollecting env root d 0 ds s c x.fits apart.0) (omega arith) all.1 apart.1))
