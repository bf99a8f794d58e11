-- ===== src/Listener/State.antt =====
-- The data of crates/listener/src/lib.rs.
--
-- A `HashMap` is a function from keys to options. A `BTreeSet<u32>` is the ascending list of its
-- members. `f64` is a type `F` with the operations that the code uses; what is known of them is said
-- where it is needed.
use lattica.Prelude.{
  ℕ, zero, suc, Bool, true, false, ◌&&◌, ◌||◌, Option, none, some, List, [], ◌∷◌, ◌==◌, ltb, leb,
  max, if◌then◌else◌, replicate,
}
use lattica.Prelude.Bytes.{Bytes}
use lattica.Prelude.Outcome.{Outcome, ◌>>=◌}
use lattica.Shred.Variant.{ShredError, shreds_per_fec, data_shreds_per_fec, coding_shreds_per_fec}
use lattica.Shred.Erasure.{ReedSolomon}
use lattica.Shred.Merkle.{Sha256}
use lattica.Shred.Verify.{Ed25519, VerifiedShred, is_last_in_slot}

abbrev pub data_shreds_threshold : ℕ
data_shreds_threshold = 32

pub record FecKey : Type 0 where
  pub slot : ℕ
  pub fec_set_index : ℕ

abbrev pub key_eq : FecKey → FecKey → Bool
key_eq a b = (a.slot == b.slot) && (a.fec_set_index == b.fec_set_index)

-- The operations on `f64`.
pub record F64 : Type 1 where
  pub F : Type 0
  pub of_nat : ℕ → F
  pub sub : F → F → F
  pub mul : F → F → F
  pub div : F → F → F

-- `reconstruct` of crates/reedsol/src/lib.rs.
unfoldable pub reconstruct :
    (rs : ReedSolomon) → List (Option Bytes) → Outcome rs.Error (List (Option Bytes))
reconstruct rs shards = do
  r ← rs.new data_shreds_per_fec coding_shreds_per_fec
  rs.reconstruct_with r shards

-- What the assembler calls, and whether its build checks overflow.
pub record Env : Type 1 where
  pub overflow_checks : Bool
  pub sha : Sha256
  pub ed : Ed25519
  pub float : F64
  pub rs : ReedSolomon

-- The reasons of `FecEvent::Rejected`, before they are formatted; `recv_from` is the daemon's, with the
-- text of the socket's error.
pub data Reason (R : Type 0) : Type 0 where
  parse_error : ShredError → Reason R
  no_leader : ℕ → Reason R
  verify_error : ShredError → Reason R
  root_diverges : Reason R
  index_out_of_range : ℕ → Reason R
  rs_reconstruct : R → Reason R
  recv_from : Bytes → Reason R

pub data FecEvent (F R : Type 0) : Type 0 where
  started : FecKey → Bytes → FecEvent F R
  shred_accepted : FecKey → (shreds_present : ℕ) → (erasure_shard_index : ℕ) → FecEvent F R
  reconstructed : FecKey → Bytes → (das_confidence : F) → FecEvent F R
  slot_finalized :
      (slot : ℕ)
      → (fec_roots : List Bytes) → (slot_root : Bytes) → (total_shreds_observed : ℕ)
      → (slot_das_confidence : F) → FecEvent F R
  rejected : Reason R → FecEvent F R

abbrev pub Event : Env → Type 0
Event env = FecEvent env.float.F env.rs.Error

pub record FecState (F : Type 0) : Type 0 where
  pub merkle_root : Option Bytes
  pub leader_sig : Option Bytes
  pub shards : List (Option Bytes)
  pub distinct_seen : ℕ
  pub is_reconstructed : Bool
  pub das_confidence_at_reconstruct : F

abbrev pub new_state : (f : F64) → FecState f.F
new_state f = record {
  merkle_root = none;
  leader_sig = none;
  shards = replicate shreds_per_fec none;
  distinct_seen = 0;
  is_reconstructed = false;
  das_confidence_at_reconstruct = f.of_nat 0;
}

pub record SlotState : Type 0 where
  pub seen_fec_indices : List ℕ
  pub reconstructed_fec_indices : List ℕ
  pub last_shred_seen : Bool
  pub last_fec_set_index : Option ℕ
  pub finalized : Bool

abbrev pub default_slot : SlotState
default_slot = record {
  seen_fec_indices = [];
  reconstructed_fec_indices = [];
  last_shred_seen = false;
  last_fec_set_index = none;
  finalized = false;
}

-- `BTreeSet::contains` and `BTreeSet::insert`.
unfoldable pub contains : ℕ → List ℕ → Bool
contains i [] = false
contains i (x ∷ xs) = (i == x) || contains i xs

unfoldable pub insert : ℕ → List ℕ → List ℕ
insert i [] = i ∷ []
insert i (x ∷ xs) =
    let rest = insert i xs in if ltb i x then i ∷ x ∷ xs else if i == x then x ∷ xs else x ∷ rest

-- A resolver is a function of the slot: its answers do not change while the assembler runs.
pub record FecAssembler (F : Type 0) : Type 0 where
  pub leader_for_slot : ℕ → Option Bytes
  pub states : FecKey → Option (FecState F)
  pub slots : ℕ → Option SlotState

abbrev pub with_resolver : {F : Type 0} → (ℕ → Option Bytes) → FecAssembler F
with_resolver resolver = record {
  leader_for_slot = resolver;
  states = λ k. none;
  slots = λ s. none;
}

-- `new`, with the resolver of a single static leader.
abbrev pub new_assembler : {F : Type 0} → Bytes → FecAssembler F
new_assembler leader_pubkey = with_resolver (λ s. some leader_pubkey)

-- A write through the reference into a map's entry.
unfoldable pub put_state : {F : Type 0} → FecAssembler F → FecKey → FecState F → FecAssembler F
put_state a k s = record a { states = λ j. if key_eq j k then some s else a.states j }

unfoldable pub put_slot : {F : Type 0} → FecAssembler F → ℕ → SlotState → FecAssembler F
put_slot a slot s = record a { slots = λ j. if j == slot then some s else a.slots j }

-- `entry(..).or_insert_with(..)` and `entry(..).or_default()`.
abbrev pub state_or_new : (f : F64) → Option (FecState f.F) → FecState f.F
state_or_new f none = new_state f
state_or_new f (some s) = s

abbrev pub slot_or_default : Option SlotState → SlotState
slot_or_default none = default_slot
slot_or_default (some s) = s

-- `map_or(i, |x| x.max(i))`
abbrev pub max_or : ℕ → Option ℕ → ℕ
max_or i none = i
max_or i (some x) = max x i

-- What every verified shred writes into its slot.
unfoldable pub note_shred : VerifiedShred → SlotState → SlotState
note_shred v s =
    let seen = record s { seen_fec_indices = insert v.fec_set_index s.seen_fec_indices } in
    if is_last_in_slot v
    then record seen {
      last_shred_seen = true;
      last_fec_set_index = some (max_or v.fec_set_index s.last_fec_set_index);
    }
    else seen

-- The loop of `das_confidence` over `0..n`, from `k` on.
unfoldable pub das_ratio : (f : F64) → ℕ → ℕ → f.F → f.F
das_ratio f zero k ratio = ratio
das_ratio f (suc n) k ratio =
    das_ratio f n (suc k)
      (f.mul ratio (f.div (f.sub (f.of_nat 31) (f.of_nat k)) (f.sub (f.of_nat 64) (f.of_nat k))))

unfoldable pub das_confidence : (f : F64) → ℕ → f.F
das_confidence f n =
    if leb data_shreds_threshold n
    then f.of_nat 1
    else f.sub (f.of_nat 1) (das_ratio f n 0 (f.of_nat 1))
