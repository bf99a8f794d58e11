-- ===== src/Listener/Ingest/Complete.antt =====
-- 32 shreds of one FEC set are enough: what the handler does with them, up to the reconstruction.
use lattica.Prelude.{
  ℕ, zero, suc, ◌+◌, ◌-◌, ◌≤◌, ◌<◌, true, false, ◌&&◌, not, Option, none, some, List, [], ◌∷◌, leb,
  le→leb, lt→leb_false, if◌then◌else◌, if_false, length, length-take, length-drop, take, drop,
  get_elem?, set, All, ◌≡◌, ◌≢◌, refl, ap, ◌∙◌, arith,
}
use lattica.Prelude.Bytes.{Bytes}
use lattica.Prelude.Outcome.{Outcome, ok, ◌>>=◌, slice_lem}
use lattica.Shred.FecSet.{erasure_shard_size}
use lattica.Shred.Erasure.{ReedSolomon}
use lattica.Shred.Parse.{ParsedShred, parse_shred}
use lattica.Shred.Verify.{VerifiedShred, verify_shred}
use lattica.Listener.State.{
  FecKey, Env, reconstruct, Event, shred_accepted, rejected, index_out_of_range, FecState,
  FecAssembler, put_state,
}
use lattica.Listener.Ingest.{
  key_of, shard_offset, complete_set, complete_with, attempt, add_shard, after_events, place_shard,
  store_shard,
}
use lattica.Listener.Invariant.{present_count, IsFecState}
use lattica.Listener.Ingest.Sound.{add_shard-IsFecState}

-- A place of the array of shards: empty, or a shard of the size of an erasure region.
abbrev pub IsPlace : Option Bytes → Type 0
IsPlace none = Unit
IsPlace (some shard) = length shard ≡ 987

-- The erasure code recovers a set from 32 of its 64 shards, all of one size.
pub record IsRecovering (rs : ReedSolomon) : Type 0 where
  pub recovers :
      (shards : List (Option Bytes))
      → length shards ≡ 64
      → All IsPlace shards
      → 32 ≤ present_count shards
      → (out : List (Option Bytes)) × (reconstruct rs shards ≡ ok out)

-- A packet with its parse and the shred that is verified from it.
pub record Delivery : Type 0 where
  pub raw : Bytes
  pub parse : ParsedShred
  pub shred : VerifiedShred

abbrev pub index_of : Delivery → ℕ
index_of d = d.parse.erasure_shard_index

pub record IsDelivery (env : Env) (leader : Bytes) (key : FecKey) (root : Bytes) (d : Delivery)
    : Type 0 where
  pub parsing : parse_shred env.overflow_checks d.raw ≡ ok d.parse
  pub verifying : verify_shred env.overflow_checks env.sha env.ed d.raw leader ≡ ok d.shred
  pub of_set : key_of d.shred ≡ key
  pub of_root : d.shred.merkle_root ≡ root
  pub low : index_of d < 64
  pub fits : shard_offset d.shred.kind + 987 ≤ length d.raw

-- No two have the same index.
abbrev pub IsDistinct : List Delivery → Type 0
IsDistinct [] = Unit
IsDistinct (d ∷ ds) = All (λ e. index_of e ≢ index_of d) ds × IsDistinct ds

get_elem?-set :
    (xs : List (Option Bytes)) (i j : ℕ) (x : Option Bytes)
    → j ≢ i
    → get_elem? (set xs i x) j ≡ get_elem? xs j
get_elem?-set [] i j x h = refl
get_elem?-set (y ∷ ys) zero zero x h = absurd (h refl)
get_elem?-set (y ∷ ys) zero (suc j) x h = refl
get_elem?-set (y ∷ ys) (suc i) zero x h = refl
get_elem?-set (y ∷ ys) (suc i) (suc j) x h = get_elem?-set ys i j x (λ e. h (ap suc e))

All-set :
    (P : Option Bytes → Type 0) (xs : List (Option Bytes)) (i : ℕ) (x : Option Bytes)
    → P x
    → All P xs
    → All P (set xs i x)
All-set P [] i x h k = tt
All-set P (y ∷ ys) zero x h k = (h, k.1)
All-set P (y ∷ ys) (suc i) x h k = (k.0, All-set P ys i x h k.1)

-- A state with `k` shreds of the set under the root, with the places of the shreds to come empty.
pub record IsCollecting {F : Type 0} (root : Bytes) (k : ℕ) (todo : List Delivery) (s : FecState F)
    : Type 0 where
  pub valid : IsFecState s
  pub places : All IsPlace s.shards
  pub rooted : s.merkle_root ≡ some root
  pub pending : s.is_reconstructed ≡ false
  pub seen : s.distinct_seen ≡ k
  pub free : All (λ d. get_elem? s.shards (index_of d) ≡ some none) todo

module _ (env : Env) (root : Bytes) (d : Delivery) where
  -- The shard of the packet.
  abbrev pub shard_of : Bytes
  shard_of = let start = shard_offset d.shred.kind in take (start + 987 - start) (drop start d.raw)

  abbrev pub with_shard : FecState env.float.F → FecState env.float.F
  with_shard s = add_shard s (index_of d) shard_of

  shard_of-IsPlace : shard_offset d.shred.kind + 987 ≤ length d.raw → IsPlace (some shard_of)
  shard_of-IsPlace fits =
      let start = shard_offset d.shred.kind in
      omega
        (arith, fits, length-take (start + 987 - start) (drop start d.raw), length-drop start d.raw)

  still_free :
      (s : FecState env.float.F) (todo : List Delivery)
      → All (λ e. index_of e ≢ index_of d) todo
      → All (λ e. get_elem? s.shards (index_of e) ≡ some none) todo
      → All (λ e. get_elem? (with_shard s).shards (index_of e) ≡ some none) todo
  still_free s [] h k = tt
  still_free s (e ∷ todo) h k = (
    get_elem?-set s.shards (index_of d) (index_of e) (some shard_of) h.0 ∙ k.0,
    still_free s todo h.1 k.1,
  )

  -- The state with the shard of the packet.
  pub with_shard-IsCollecting :
      (k : ℕ) (todo : List Delivery) (s : FecState env.float.F)
      → IsCollecting root k (d ∷ todo) s
      → shard_offset d.shred.kind + 987 ≤ length d.raw
      → All (λ e. index_of e ≢ index_of d) todo
      → IsCollecting root (suc k) todo (with_shard s)
  with_shard-IsCollecting k todo s c fits apart = record {
    valid = add_shard-IsFecState s (index_of d) shard_of root c.valid c.rooted c.free.0;
    places = All-set IsPlace s.shards (index_of d) (some shard_of) (shard_of-IsPlace fits) c.places;
    rooted = c.rooted;
    pending = c.pending;
    seen = omega (arith, c.seen);
    free = still_free s todo apart c.free.1;
  }

  module _ (a : FecAssembler env.float.F) (s : FecState env.float.F) where
    abbrev pub accepted_event : Event env
    accepted_event = shred_accepted (key_of d.shred) (s.distinct_seen + 1) (index_of d)

    store_shard-attempt :
        shard_offset d.shred.kind + 987 ≤ length d.raw
        → index_of d < 64
        → get_elem? s.shards (index_of d) ≡ some none
        → store_shard env a d.raw d.parse d.shred s
          ≡ (attempt env a d.shred (with_shard s) >>= after_events env (accepted_event ∷ []))
    unfolding store_shard
    store_shard-attempt fits low free =
        let start = shard_offset d.shred.kind in
        let read =
          slice_lem {E = ⊥} d.raw start (start + erasure_shard_size) (omega arith)
            (omega (arith, fits)) in
        let tested = λ (m : Outcome ⊥ Bytes). m >>= λ shard.
        if leb 64 (index_of d)
        then ok (put_state a (key_of d.shred) s, rejected (index_out_of_range (index_of d)) ∷ [])
        else place_shard env a d.shred s (index_of d) shard (get_elem? s.shards (index_of d)) in
        ap tested read
        ∙ if_false _ _ (lt→leb_false 64 (index_of d) low)
        ∙ ap (place_shard env a d.shred s (index_of d) shard_of) free

    -- Below 32 shreds the state is kept and nothing more is done.
    attempt_early :
        s.distinct_seen < 32 → attempt env a d.shred s ≡ ok (put_state a (key_of d.shred) s, [])
    unfolding attempt
    attempt_early h = rw (attempt, lt→leb_false 32 s.distinct_seen h) refl

    -- With 32 the set is reconstructed.
    attempt_enough :
        IsRecovering env.rs
        → IsFecState s
        → All IsPlace s.shards
        → s.merkle_root ≡ some root
        → s.is_reconstructed ≡ false
        → 32 ≤ s.distinct_seen
        → attempt env a d.shred s ≡ ok (complete_set env a d.shred s root)
    unfolding attempt
    attempt_enough laws w places rooted pending enough =
        let (out, run) =
          laws.recovers s.shards w.shard_count places (omega (arith, enough, w.distinct)) in
        let tested : (leb 32 s.distinct_seen && not s.is_reconstructed) ≡ true =
          rw (le→leb 32 s.distinct_seen enough, pending) refl in
        rw (attempt, tested, run) (ap (complete_with env a d.shred s) rooted)

  -- The shred that is not the last one needed.
  pub store_shard-early :
      (a : FecAssembler env.float.F) (k : ℕ) (todo : List Delivery) (s : FecState env.float.F)
      → IsCollecting root k (d ∷ todo) s
      → shard_offset d.shred.kind + 987 ≤ length d.raw
      → index_of d < 64
      → suc k < 32
      → store_shard env a d.raw d.parse d.shred s
        ≡ ok (put_state a (key_of d.shred) (with_shard s), accepted_event a s ∷ [])
  store_shard-early a k todo s c fits low few =
      store_shard-attempt a s fits low c.free.0
      ∙ rw (attempt_early a (with_shard s) (omega (arith, c.seen))) refl

  -- The 32nd shred.
  pub store_shard-last :
      (a : FecAssembler env.float.F) (todo : List Delivery) (s : FecState env.float.F)
      → IsRecovering env.rs
      → IsCollecting root 31 (d ∷ todo) s
      → shard_offset d.shred.kind + 987 ≤ length d.raw
      → index_of d < 64
      → All (λ e. index_of e ≢ index_of d) todo
      → store_shard env a d.raw d.parse d.shred s ≡ (
          ok (complete_set env a d.shred (with_shard s) root)
          >>= after_events env (accepted_event a s ∷ []))
  store_shard-last a todo s laws c fits low apart =
      let full = with_shard-IsCollecting 31 todo s c fits apart in
      store_shard-attempt a s fits low c.free.0
      ∙ ap (λ m. m >>= after_events env (accepted_event a s ∷ []))
          (attempt_enough a (with_shard s) laws full.valid full.places full.rooted full.pending
            (omega (arith, full.seen)))
