-- ===== src/Listener/Ingest.antt =====
-- `FecAssembler::ingest` of crates/listener/src/lib.rs. A step returns the assembler and the events
-- that the rest of the handler pushes.
use lattica.Prelude.{
  ℕ, zero, suc, ◌+◌, Bool, true, false, ◌&&◌, not, Option, none, some, List, [], ◌∷◌, ◌++◌, ◌==◌,
  ltb, leb, if◌then◌else◌, length, get_elem?, set,
}
use lattica.Prelude.Bytes.{Bytes}
use lattica.Prelude.Outcome.{Outcome, ok, err, panic, ◌>>=◌, slice}
use lattica.Shred.FecSet.{erasure_shard_size}
use lattica.Shred.Variant.{
  ShredError, ShredKind, data_shred, code_shred, size_of_signature, shreds_per_fec,
}
use lattica.Shred.Parse.{ParsedShred, parse_shred}
use lattica.Shred.Verify.{VerifiedShred, verify_shred}
use lattica.Listener.State.{
  data_shreds_threshold, FecKey, F64, Env, reconstruct, parse_error, no_leader, verify_error,
  root_diverges, index_out_of_range, rs_reconstruct, FecEvent, started, shred_accepted,
  reconstructed, rejected, Event, FecState, SlotState, insert, FecAssembler, put_state, put_slot,
  state_or_new, slot_or_default, note_shred, das_confidence,
}
use lattica.Listener.Finalize.{try_finalize_slot}
pub mod Steps
pub mod Sound
pub mod Complete
pub mod Enough
pub mod After
pub mod Exactly
pub mod Fresh
pub mod Recovery
pub mod Whole
pub mod Gather
pub mod Entry
pub mod TwoSets
pub mod Slot
pub mod Packets

abbrev pub Step : Env → Type 0
Step env = FecAssembler env.float.F × List (Event env)

abbrev pub push_option {ℓ} : {A : Type ℓ} → Option A → List A
push_option none = []
push_option (some e) = e ∷ []

-- `==` on two byte arrays.
unfoldable pub bytes_eq : Bytes → Bytes → Bool
bytes_eq [] [] = true
bytes_eq [] (y ∷ ys) = false
bytes_eq (x ∷ xs) [] = false
bytes_eq (x ∷ xs) (y ∷ ys) = (x == y) && bytes_eq xs ys

abbrev pub key_of : VerifiedShred → FecKey
key_of v = record { slot = v.slot; fec_set_index = v.fec_set_index }

abbrev pub shard_offset : ShredKind → ℕ
shard_offset data_shred = size_of_signature
shard_offset code_shred = 89

-- The end of the handler: `try_finalize_slot` and its event.
unfoldable pub finish : (env : Env) → FecAssembler env.float.F → ℕ → Step env
finish env a slot = let (after, event) = try_finalize_slot env a slot in (after, push_option event)

-- The set is marked in its slot, before the slot is looked at.
pub mark_reconstructed : {F : Type 0} → FecAssembler F → VerifiedShred → FecAssembler F
mark_reconstructed a v =
    let s = slot_or_default (a.slots v.slot) in
    put_slot a v.slot
      (record s { reconstructed_fec_indices = insert v.fec_set_index s.reconstructed_fec_indices })

abbrev pub done_state : (f : F64) → FecState f.F → FecState f.F
done_state f s = record s {
  is_reconstructed = true;
  das_confidence_at_reconstruct = das_confidence f s.distinct_seen;
}

-- A set that is reconstructed under `root`: its state and its slot are updated, its event and the
-- slot's are pushed.
pub complete_set :
    (env : Env) → FecAssembler env.float.F → VerifiedShred → FecState env.float.F → Bytes → Step env
complete_set env a v s root =
    let saved = put_state a (key_of v) (done_state env.float s) in
    let (after, events) = finish env (mark_reconstructed saved v) v.slot in
    (after, reconstructed (key_of v) root (das_confidence env.float s.distinct_seen) ∷ events)

-- `merkle_root.unwrap()` is a panic where there is none.
abbrev pub complete_with :
    (env : Env)
    → FecAssembler env.float.F
    → VerifiedShred
    → FecState env.float.F
    → Option Bytes
    → Outcome ⊥ (Step env)
complete_with env a v s none = panic
complete_with env a v s (some root) = ok (complete_set env a v s root)

-- Step 4 for the state `s` with its new shard.
pub attempt :
    (env : Env)
    → FecAssembler env.float.F
    → VerifiedShred
    → FecState env.float.F
    → Outcome ⊥ (Step env)
attempt env a v s =
    if leb data_shreds_threshold s.distinct_seen && not s.is_reconstructed
    then elim (reconstruct env.rs s.shards) [
      | panic ↦ panic
      | err e ↦ ok (put_state a (key_of v) s, rejected (rs_reconstruct e) ∷ [])
      | ok recovered ↦ complete_with env a v s s.merkle_root
    ]
    else ok (put_state a (key_of v) s, [])

abbrev pub add_shard : {F : Type 0} → FecState F → ℕ → Bytes → FecState F
add_shard s index shard = record s {
  shards = set s.shards index (some shard);
  distinct_seen = s.distinct_seen + 1;
}

-- The events of a step, after those already pushed.
abbrev pub after_events : (env : Env) → List (Event env) → Step env → Outcome ⊥ (Step env)
after_events env pushed (a, events) = ok (a, pushed ++ events)

-- The shard at `index`, whose place holds `place`.
abbrev pub place_shard :
    (env : Env)
    → FecAssembler env.float.F
    → VerifiedShred
    → FecState env.float.F
    → ℕ
    → Bytes
    → Option (Option Bytes)
    → Outcome ⊥ (Step env)
place_shard env a v s index shard none = panic
place_shard env a v s index shard (some (some present)) = ok (put_state a (key_of v) s, [])
place_shard env a v s index shard (some none) =
    attempt env a v (add_shard s index shard)
    >>= after_events env (shred_accepted (key_of v) (s.distinct_seen + 1) index ∷ [])

-- Step 3: the shard's bytes are read before its index is looked at.
pub store_shard :
    (env : Env)
    → FecAssembler env.float.F
    → Bytes
    → ParsedShred
    → VerifiedShred
    → FecState env.float.F
    → Outcome ⊥ (Step env)
store_shard env a raw p v s = do
  let start = shard_offset v.kind
  shard ← slice raw start (start + erasure_shard_size)
  let index = p.erasure_shard_index
  if leb shreds_per_fec index
      then ok (put_state a (key_of v) s, rejected (index_out_of_range index) ∷ [])
      else place_shard env a v s index shard (get_elem? s.shards index)

-- The set's root is captured where there is none, or compared.
abbrev pub check_root_with :
    (env : Env)
    → FecAssembler env.float.F
    → Bytes
    → ParsedShred
    → VerifiedShred
    → FecState env.float.F
    → Option Bytes
    → Outcome ⊥ (Step env)
check_root_with env a raw p v s none =
    store_shard env a raw p v (record s { merkle_root = some v.merkle_root })
    >>= after_events env (started (key_of v) v.merkle_root ∷ [])
check_root_with env a raw p v s (some existing) =
    if bytes_eq existing v.merkle_root
    then store_shard env a raw p v s
    else ok (put_state a (key_of v) s, rejected root_diverges ∷ [])

-- Step 2.
pub check_root :
    (env : Env)
    → FecAssembler env.float.F
    → Bytes
    → ParsedShred
    → VerifiedShred
    → FecState env.float.F
    → Outcome ⊥ (Step env)
check_root env a raw p v s = check_root_with env a raw p v s s.merkle_root

-- The entries of a verified shred in the two maps.
pub enter : (f : F64) → FecAssembler f.F → VerifiedShred → FecState f.F → FecAssembler f.F
enter f a v s =
    put_slot (put_state a (key_of v) s) v.slot (note_shred v (slot_or_default (a.slots v.slot)))

-- The handler from the first entry on.
pub accept :
    (env : Env)
    → FecAssembler env.float.F
    → Bytes
    → ParsedShred
    → VerifiedShred
    → Outcome ⊥ (Step env)
accept env a raw p v =
    let s = state_or_new env.float (a.states (key_of v)) in
    let entered = enter env.float a v s in
    if s.is_reconstructed then ok (finish env entered v.slot) else check_root env entered raw p v s

unfoldable pub ingest : (env : Env) → FecAssembler env.float.F → Bytes → Outcome ⊥ (Step env)
ingest env a raw = elim (parse_shred env.overflow_checks raw) [
  | panic ↦ panic
  | err e ↦ ok (a, rejected (parse_error e) ∷ [])
  | ok p ↦ elim (a.leader_for_slot p.header.slot) [
    | none ↦ ok (a, rejected (no_leader p.header.slot) ∷ [])
    | some leader_pubkey ↦
        elim (verify_shred env.overflow_checks env.sha env.ed raw leader_pubkey) [
          | panic ↦ panic
          | err e ↦ ok (a, rejected (verify_error e) ∷ [])
          | ok v ↦ accept env a raw p v
        ]
  ]
]
