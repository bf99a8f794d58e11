-- ===== src/Listener/Finalize.antt =====
-- `try_finalize_slot` and `aggregate_root` of crates/listener/src/lib.rs.
use lattica.Prelude.{
  ℕ, zero, suc, ◌+◌, Bool, true, false, ◌&&◌, not, Option, none, some, List, [], ◌∷◌, ltb, leb,
  if◌then◌else◌, length, replicate,
}
use lattica.Prelude.Bytes.{Bytes}
use lattica.Prelude.Optional.{◌>>=◌}
use lattica.Shred.Merkle.{Sha256, next_level}
use lattica.Listener.State.{
  FecKey, F64, Env, FecEvent, slot_finalized, Event, FecState, SlotState, contains, FecAssembler,
  put_slot,
}
pub mod Root
pub mod Once
pub mod Report

-- The `while` loop and `layer[0]`; a layer is reduced as a level of a FEC set's tree is. The fuel
-- counts the rounds.
unfoldable pub reduce_layers : Sha256 → ℕ → List Bytes → Bytes
reduce_layers sha zero [] = []
reduce_layers sha zero (a ∷ rest) = a
reduce_layers sha (suc fuel) [] = []
reduce_layers sha (suc fuel) (a ∷ []) = a
reduce_layers sha (suc fuel) (a ∷ b ∷ rest) = reduce_layers sha fuel (next_level sha (a ∷ b ∷ rest))

-- A layer halves in each round, so as many rounds as roots are enough.
unfoldable pub aggregate_root : Sha256 → List Bytes → Bytes
aggregate_root sha [] = replicate 32 0
aggregate_root sha (a ∷ rest) = reduce_layers sha (length (a ∷ rest)) (a ∷ rest)

-- `iter().filter(|i| *i <= last_idx)`
unfoldable pub up_to : ℕ → List ℕ → List ℕ
up_to last [] = []
up_to last (i ∷ is) = let rest = up_to last is in if leb i last then i ∷ rest else rest

-- The loop that looks for a set that is not reconstructed.
unfoldable pub all_contained : List ℕ → List ℕ → Bool
all_contained [] done = true
all_contained (i ∷ is) done = contains i done && all_contained is done

pub record Totals (F : Type 0) : Type 0 where
  pub fec_roots : List Bytes
  pub total_shreds : ℕ
  pub undetect : F

-- The loop that collects the roots, and what it has when it ends; `none` where a `?` returns.
unfoldable pub collect : (f : F64) → FecAssembler f.F → ℕ → List ℕ → ℕ → f.F → Option (Totals f.F)
collect f a slot [] total undetect =
    some (record { fec_roots = []; total_shreds = total; undetect = undetect })
collect f a slot (i ∷ is) total undetect = do
  st ← a.states (record { slot = slot; fec_set_index = i })
  root ← st.merkle_root
  rest ←
      collect f a slot is (total + st.distinct_seen)
        (f.mul undetect (f.sub (f.of_nat 1) st.das_confidence_at_reconstruct))
  some (record rest { fec_roots = root ∷ rest.fec_roots })

-- The conditions under which a slot is finalized: the last shred was seen, every set seen up to the
-- last is reconstructed, and the last is among those seen. The index of the last set is returned.
unfoldable pub ready : SlotState → Option ℕ
ready s = if s.finalized then none else if not s.last_shred_seen then none else do
  last_idx ← s.last_fec_set_index
  if all_contained (up_to last_idx s.seen_fec_indices) s.reconstructed_fec_indices
        && contains last_idx s.seen_fec_indices
      then some last_idx
      else none

unfoldable pub finalized_event :
    (env : Env) → FecAssembler env.float.F → ℕ → List ℕ → Option (Event env)
finalized_event env a slot indices = do
  let f = env.float
  totals ← collect f a slot indices 0 (f.of_nat 1)
  some (
      slot_finalized slot totals.fec_roots (aggregate_root env.sha totals.fec_roots)
        totals.total_shreds (f.sub (f.of_nat 1) totals.undetect))

-- The assembler with the slot marked, and the event.
unfoldable pub finalize_ready :
    (env : Env)
    → FecAssembler env.float.F
    → ℕ
    → SlotState
    → Option ℕ
    → FecAssembler env.float.F × Option (Event env)
finalize_ready env a slot s none = (a, none)
finalize_ready env a slot s (some last_idx) =
    let marked = put_slot a slot (record s { finalized = true }) in
    (marked, finalized_event env marked slot (up_to last_idx s.seen_fec_indices))

unfoldable pub try_finalize_slot :
    (env : Env) → FecAssembler env.float.F → ℕ → FecAssembler env.float.F × Option (Event env)
try_finalize_slot env a slot = elim (a.slots slot) [
  | none ↦ (a, none)
  | some s ↦ finalize_ready env a slot s (ready s)
]
