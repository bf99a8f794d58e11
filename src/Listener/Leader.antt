-- ===== src/Listener/Leader.antt =====
-- crates/listener/src/leader.rs: the resolvers of a slot's leader.
--
-- The cache is a `HashMap` of which only lookups and the ascending order of its keys are used: an
-- association list, ascending by slot. `fetch_window` (in Fetch) is here a function from the start and
-- the count to the leaders, `none` where it fails. Sums of slots wrap, as in a release
-- build.
use lattica.Prelude.{
  ℕ, suc, ◌+◌, ◌-◌, ◌%◌, ◌^◌, Option, none, some, List, [], ◌∷◌, ◌==◌, ltb, if◌then◌else◌, length,
  take,
}
use lattica.Prelude.Bytes.{Bytes}
use lattica.Prelude.Optional.{◌>>=◌}
pub mod Cache
pub mod Fetch
pub mod Full

abbrev pub batch_size : ℕ
batch_size = 1000

abbrev pub max_cache_entries : ℕ
max_cache_entries = 100000

abbrev pub static_leader : Bytes → ℕ → Option Bytes
static_leader pubkey slot = some pubkey

abbrev pub LeaderCache : Type 0
LeaderCache = List (ℕ × Bytes)

abbrev pub FetchWindow : Type 0
FetchWindow = (start count : ℕ) → Option (List Bytes)

pub lookup : ℕ → LeaderCache → Option Bytes
lookup slot [] = none
lookup slot ((s, pk) ∷ rest) = let later = lookup slot rest in if slot == s then some pk else later

pub insert_leader : ℕ → Bytes → LeaderCache → LeaderCache
insert_leader slot leader [] = (slot, leader) ∷ []
insert_leader slot leader ((s, pk) ∷ rest) =
    let later = insert_leader slot leader rest in
    if ltb slot s
    then (slot, leader) ∷ (s, pk) ∷ rest
    else if slot == s
    then (slot, leader) ∷ rest
    else (s, pk) ∷ later

-- The loop over the leaders, from the `i`-th on, at the slots that follow `start`.
pub insert_window : ℕ → ℕ → List Bytes → LeaderCache → LeaderCache
insert_window start i [] cache = cache
insert_window start i (pk ∷ leaders) cache =
    insert_window start (suc i) leaders (insert_leader ((start + i) % 2 ^ 64) pk cache)

pub remove : ℕ → LeaderCache → LeaderCache
remove slot [] = []
remove slot ((s, pk) ∷ rest) =
    let later = remove slot rest in if slot == s then rest else (s, pk) ∷ later

-- The loop over the keys that are dropped.
pub remove_all : List ℕ → LeaderCache → LeaderCache
remove_all [] cache = cache
remove_all (k ∷ ks) cache = remove_all ks (remove k cache)

-- The keys, sorted.
pub sorted_keys : LeaderCache → List ℕ
sorted_keys [] = []
sorted_keys ((s, pk) ∷ rest) = s ∷ sorted_keys rest

pub evict : LeaderCache → LeaderCache
evict cache =
    if ltb max_cache_entries (length cache)
    then remove_all (take (length cache - max_cache_entries) (sorted_keys cache)) cache
    else cache

-- `none` where the fetch fails; the cache is then as it was.
pub fill_window : FetchWindow → LeaderCache → ℕ → Option LeaderCache
fill_window fetch cache start = do
  leaders ← fetch start batch_size
  some (evict (insert_window start 0 leaders cache))

-- What is done under the lock on a miss, with the cache as other threads have left it by then.
pub resolve_miss : FetchWindow → LeaderCache → ℕ → LeaderCache × Option Bytes
resolve_miss fetch cache slot = elim (lookup slot cache) [
  | some pk ↦ (cache, some pk)
  | none ↦ elim (fill_window fetch cache slot) [
    | none ↦ (cache, none)
    | some filled ↦ (filled, lookup slot filled)
  ]
]

-- `before` is the cache at the first lookup and `cache` the one under the lock.
pub leader_for_slot : FetchWindow → LeaderCache → LeaderCache → ℕ → LeaderCache × Option Bytes
leader_for_slot fetch before cache slot = elim (lookup slot before) [
  | some pk ↦ (cache, some pk)
  | none ↦ resolve_miss fetch cache slot
]
