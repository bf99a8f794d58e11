-- ===== src/Tests/Leader.antt =====
-- The theorem on the leader cache, applied.
use lattica.Prelude.{
  ℕ, zero, suc, ◌+◌, ◌<◌, none, some, List, [], ◌∷◌, length, All, ◌≡◌, refl, ap, subst, arith,
}
use lattica.Prelude.Bytes.{Bytes}
use lattica.Listener.Leader.{LeaderCache, FetchWindow, leader_for_slot}
use lattica.Listener.Leader.Cache.{
  IsWindow, IsHonest, IsCache, IsResolved, leader_for_slot-IsResolved,
}
use lattica.Listener.Leader.Full.{leader_for_slot-none}
use lattica.Tests.Fixtures.{leader}

-- A chain with one leader, and a node that answers with two slots at a time.
abbrev truth : ℕ → Bytes
truth slot = leader

abbrev two_slots : List Bytes
two_slots = leader ∷ leader ∷ []

abbrev fetch : FetchWindow
fetch start count = some two_slots

fetch-IsHonest : IsHonest truth fetch
fetch-IsHonest = record {
  window = λ start leaders h.
      let same : two_slots ≡ leaders = cc in subst (IsWindow truth start 0) same (refl, (refl, tt));
}

abbrev cached : LeaderCache
cached = (3, leader) ∷ []

cached-IsCache : IsCache truth cached
cached-IsCache = record { agrees = (refl, tt); bounded = omega arith }

leader_for_slot-IsResolved_example : IsResolved truth 7 (leader_for_slot fetch cached cached 7)
leader_for_slot-IsResolved_example =
    leader_for_slot-IsResolved truth fetch fetch-IsHonest cached cached 7 cached-IsCache
      cached-IsCache

-- The slots from `8 + i` on.
unfoldable later_slots : ℕ → ℕ → LeaderCache
later_slots i zero = []
later_slots i (suc n) = (8 + i, leader) ∷ later_slots (suc i) n

length-later_slots : (i n : ℕ) → length (later_slots i n) ≡ n
unfolding later_slots
length-later_slots i zero = refl
length-later_slots i (suc n) = ap suc (length-later_slots (suc i) n)

later_slots_later : (i n : ℕ) → All (λ (e : ℕ × Bytes). 7 < e.0) (later_slots i n)
unfolding later_slots
later_slots_later i zero = tt
later_slots_later i (suc n) = (omega arith, later_slots_later (suc i) n)

leader_for_slot-none_example :
    (leader_for_slot fetch (later_slots 0 100000) (later_slots 0 100000) 7).1 ≡ none
leader_for_slot-none_example =
    leader_for_slot-none fetch (later_slots 0 100000) 7 leader (leader ∷ []) refl (omega arith)
      (omega (arith, length-later_slots 0 100000)) (later_slots_later 0 100000)
