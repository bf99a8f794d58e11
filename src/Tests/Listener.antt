-- ===== src/Tests/Listener.antt =====
-- The theorems on the assembler, applied.
use lattica.Prelude.{
  true, false, none, replicate, ℕ, ◌≤◌, some, List, [], ◌∷◌, All, ◌≡◌, refl, ◌⊎◌, arith,
}
use lattica.Prelude.Bytes.{Bytes}
use lattica.Prelude.Outcome.{ok}
use lattica.Shred.Merkle.{Tree, build_tree}
use lattica.Listener.State.{
  Event, contains, put_slot, FecState, SlotState, slot_finalized, Reason, FecAssembler,
  with_resolver,
}
use lattica.Listener.Finalize.{
  aggregate_root, try_finalize_slot, finalize_ready, ready, finalized_event, collect, up_to,
  all_contained, reduce_layers,
}
use lattica.Listener.Finalize.Once.{marked}
use lattica.Listener.Finalize.Report.{IsReport, try_finalize_slot-IsReport}
use lattica.Listener.Finalize.Root.{aggregate_root-build_tree}
use lattica.Listener.Ingest.{Step, ingest}
use lattica.Listener.Invariant.{AllStates, finalize_count, IsStep}
use lattica.Listener.Run.{
  IsPacket, turned_down, IsAccepted, ingest_cases, ingest_all, ingest-IsStep,
  ingest_all-finalize_count,
}
use lattica.Tests.Fixtures.{
  toy_sha256, toy_env, toy_env-IsReedSolomon, toy_IsPacket, shred, shred-IsByte, leader, backward,
  backward-IsByte, leaves,
}

-- A new assembler for one static leader.
abbrev fresh : FecAssembler ℕ
fresh = with_resolver (λ s. some leader)

ingest_cases_example :
    ((reason : Reason ℕ) × (ingest toy_env fresh shred ≡ ok (turned_down toy_env fresh reason)))
    ⊎ IsAccepted toy_env fresh shred
ingest_cases_example = ingest_cases toy_env fresh shred (toy_IsPacket shred shred-IsByte)

fresh-AllStates : AllStates fresh
fresh-AllStates k s e = cc

ingest-IsStep_example :
    (r : Step toy_env) × (ingest toy_env fresh shred ≡ ok r) × IsStep toy_env fresh r
ingest-IsStep_example =
    ingest-IsStep toy_env toy_env-IsReedSolomon fresh shred fresh-AllStates
      (toy_IsPacket shred shred-IsByte)

-- A shred, the same again, and one with its indices the wrong way round.
abbrev packets : List Bytes
packets = shred ∷ shred ∷ backward ∷ []

packets-All : All (IsPacket toy_env) packets
packets-All = (
  toy_IsPacket shred shred-IsByte,
  (toy_IsPacket shred shred-IsByte, (toy_IsPacket backward backward-IsByte, tt)),
)

ingest_all-finalize_count_example :
    (r : Step toy_env) × (ingest_all toy_env (with_resolver (λ s. some leader)) packets ≡ ok r)
    × AllStates r.0
    × ((slot : ℕ) → finalize_count slot r.1 ≤ 1)
ingest_all-finalize_count_example =
    ingest_all-finalize_count toy_env toy_env-IsReedSolomon (λ s. some leader) packets packets-All

aggregate_root-build_tree_example :
    (tree : Tree) × (build_tree toy_sha256 leaves ≡ ok tree)
    × (aggregate_root toy_sha256 leaves ≡ tree.root)
aggregate_root-build_tree_example = aggregate_root-build_tree toy_sha256 leaves (omega arith)

-- Slot 5 with one set, which is reconstructed and holds the last shred.
abbrev one_slot : SlotState
one_slot = record {
  seen_fec_indices = 0 ∷ [];
  reconstructed_fec_indices = 0 ∷ [];
  last_shred_seen = true;
  last_fec_set_index = some 0;
  finalized = false;
}

abbrev one_set : FecState ℕ
one_set = record {
  merkle_root = some (replicate 32 5);
  leader_sig = none;
  shards = replicate 64 none;
  distinct_seen = 40;
  is_reconstructed = true;
  das_confidence_at_reconstruct = 1;
}

abbrev one_slot_left : FecAssembler ℕ
one_slot_left = record {
  leader_for_slot = λ s. some leader;
  states = λ k. some one_set;
  slots = λ s. some one_slot;
}

abbrev final_event : Event toy_env
final_event = slot_finalized 5 (replicate 32 5 ∷ []) (replicate 32 5) 40 1

finalizes_now :
    try_finalize_slot toy_env one_slot_left 5
    ≡ (marked toy_env one_slot_left 5 one_slot, some final_event)
unfolding try_finalize_slot finalize_ready ready finalized_event collect up_to all_contained
    contains aggregate_root reduce_layers put_slot
finalizes_now = refl

try_finalize_slot-IsReport_example : IsReport toy_env one_slot_left 5 final_event
try_finalize_slot-IsReport_example =
    try_finalize_slot-IsReport toy_env one_slot_left (marked toy_env one_slot_left 5 one_slot) 5
      final_event finalizes_now
