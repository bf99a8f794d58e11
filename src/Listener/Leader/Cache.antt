-- ===== src/Listener/Leader/Cache.antt =====
-- The cache stays within its bound, and never answers with a wrong leader.
use lattica.Prelude.{
  ℕ, zero, suc, ◌+◌, ◌-◌, ◌%◌, ◌^◌, ◌≤◌, Option, some, List, [], ◌∷◌, ◌==◌, ==_iff, ==_self, ltb,
  ltb-false, if◌then◌else◌, length, length-drop, take, drop, All, ◌≡◌, refl, ap, subst, ◌∙◌, inl,
  inr, Bool-cases, Option-cases, arith,
}
use lattica.Prelude.Bytes.{Bytes}
use lattica.Listener.Leader.{
  batch_size, max_cache_entries, LeaderCache, FetchWindow, lookup, insert_leader, insert_window,
  remove, remove_all, sorted_keys, evict, fill_window, resolve_miss, leader_for_slot,
}

-- Every entry is the true leader of its slot.
abbrev pub Agrees : (ℕ → Bytes) → LeaderCache → Type 0
Agrees truth cache = All (λ (e : ℕ × Bytes). truth e.0 ≡ e.1) cache

-- The leaders from the `i`-th on are those of the slots from `start + i` on.
abbrev pub IsWindow : (ℕ → Bytes) → ℕ → ℕ → List Bytes → Type 0
IsWindow truth start i [] = Unit
IsWindow truth start i (pk ∷ leaders) =
    (truth ((start + i) % 2 ^ 64) ≡ pk) × IsWindow truth start (suc i) leaders

-- The node answers with the true leaders, where it answers.
pub record IsHonest (truth : ℕ → Bytes) (fetch : FetchWindow) : Type 0 where
  pub window :
      (start : ℕ) (leaders : List Bytes)
      → fetch start batch_size ≡ some leaders
      → IsWindow truth start 0 leaders

pub evicted_is_drop :
    (n : ℕ) (cache : LeaderCache) → remove_all (take n (sorted_keys cache)) cache ≡ drop n cache
unfolding remove_all sorted_keys remove
evicted_is_drop zero cache = refl
evicted_is_drop (suc n) [] = refl
evicted_is_drop (suc n) ((s, pk) ∷ rest) = rw (if_true_remove s pk rest) (evicted_is_drop n rest)
  where
    if_true_remove :
        (s : ℕ) (pk : Bytes) (rest : LeaderCache)
        → (if s == s then rest else (s, pk) ∷ remove s rest) ≡ rest
    if_true_remove s pk rest = rw (==_self s) refl

length-evict : (cache : LeaderCache) → length (evict cache) ≤ max_cache_entries
unfolding evict
length-evict cache = elim (Bool-cases (ltb max_cache_entries (length cache))) [
  | inl e ↦
      rw (e, evicted_is_drop (length cache - max_cache_entries) cache)
        (omega (arith, length-drop (length cache - max_cache_entries) cache))
  | inr e ↦ rw e (ltb-false _ _ e)
]

pub All-drop : (P : ℕ × Bytes → Type 0) (n : ℕ) (c : LeaderCache) → All P c → All P (drop n c)
All-drop P zero c h = h
All-drop P (suc n) [] h = tt
All-drop P (suc n) (e ∷ c) h = All-drop P n c h.1

evict-Agrees :
    (truth : ℕ → Bytes) (cache : LeaderCache) → Agrees truth cache → Agrees truth (evict cache)
unfolding evict
evict-Agrees truth cache h = elim (Bool-cases (ltb max_cache_entries (length cache))) [
  | inl e ↦
      rw (e, evicted_is_drop (length cache - max_cache_entries) cache)
        (All-drop (λ (x : ℕ × Bytes). truth x.0 ≡ x.1) (length cache - max_cache_entries) cache h)
  | inr e ↦ rw e h
]

insert_leader-Agrees :
    (truth : ℕ → Bytes) (slot : ℕ) (pk : Bytes) (cache : LeaderCache)
    → truth slot ≡ pk
    → Agrees truth cache
    → Agrees truth (insert_leader slot pk cache)
unfolding insert_leader
insert_leader-Agrees truth slot pk [] e h = (e, tt)
insert_leader-Agrees truth slot pk ((s, q) ∷ rest) e h = elim (Bool-cases (ltb slot s)) [
  | inl less ↦ rw less (e, h)
  | inr geq ↦ elim (Bool-cases (slot == s)) [
    | inl same ↦ rw (geq, same) (e, h.1)
    | inr other ↦ rw (geq, other) (h.0, insert_leader-Agrees truth slot pk rest e h.1)
  ]
]

insert_window-Agrees :
    (truth : ℕ → Bytes) (start i : ℕ) (leaders : List Bytes) (cache : LeaderCache)
    → IsWindow truth start i leaders
    → Agrees truth cache
    → Agrees truth (insert_window start i leaders cache)
unfolding insert_window
insert_window-Agrees truth start i [] cache w h = h
insert_window-Agrees truth start i (pk ∷ leaders) cache w h =
    insert_window-Agrees truth start (suc i) leaders _ w.1
      (insert_leader-Agrees truth ((start + i) % 2 ^ 64) pk cache w.0 h)

lookup-Agrees :
    (truth : ℕ → Bytes) (slot : ℕ) (pk : Bytes) (cache : LeaderCache)
    → Agrees truth cache
    → lookup slot cache ≡ some pk
    → truth slot ≡ pk
unfolding lookup
lookup-Agrees truth slot pk [] h e = cc
lookup-Agrees truth slot pk ((s, q) ∷ rest) h e = elim (Bool-cases (slot == s)) [
  | inl same ↦
      let here : some q ≡ some pk = rw same at e in
      let found : q ≡ pk = cc in ap truth ((==_iff slot s).0 same) ∙ h.0 ∙ found
  | inr other ↦ lookup-Agrees truth slot pk rest h.1 (rw other at e)
]

-- What holds of the cache between calls.
pub record IsCache (truth : ℕ → Bytes) (cache : LeaderCache) : Type 0 where
  pub agrees : Agrees truth cache
  pub bounded : length cache ≤ max_cache_entries

-- What holds of a call's result.
abbrev pub IsResolved : (ℕ → Bytes) → ℕ → LeaderCache × Option Bytes → Type 0
IsResolved truth slot r = IsCache truth r.0 × ((pk : Bytes) → r.1 ≡ some pk → truth slot ≡ pk)

module _ (truth : ℕ → Bytes) (fetch : FetchWindow) (honest : IsHonest truth fetch) where
  fill_window-IsCache :
      (cache filled : LeaderCache) (start : ℕ)
      → IsCache truth cache
      → fill_window fetch cache start ≡ some filled
      → IsCache truth filled
  unfolding fill_window
  fill_window-IsCache cache filled start v h = elim (Option-cases (fetch start batch_size)) [
    | inl e ↦ cc (rw e at h)
    | inr (leaders, e) ↦
        let whole : some (evict (insert_window start 0 leaders cache)) ≡ some filled = rw e at h in
        let same : evict (insert_window start 0 leaders cache) ≡ filled = cc in
        subst (IsCache truth) same (record {
          agrees = evict-Agrees truth _ (
              insert_window-Agrees truth start 0 leaders cache (honest.window start leaders e)
                v.agrees);
          bounded = length-evict _;
        })
  ]

  resolve_miss-IsResolved :
      (cache : LeaderCache) (slot : ℕ)
      → IsCache truth cache
      → IsResolved truth slot (resolve_miss fetch cache slot)
  unfolding resolve_miss
  resolve_miss-IsResolved cache slot v = elim (Option-cases (lookup slot cache)) [
    | inr (pk, e) ↦
        rw (resolve_miss, e) (v, λ q h. lookup-Agrees truth slot q cache v.agrees (e ∙ h))
    | inl e ↦ elim (Option-cases (fill_window fetch cache slot)) [
      | inl g ↦ rw (resolve_miss, e, g) (v, λ q h. cc)
      | inr (filled, g) ↦
          let w = fill_window-IsCache cache filled slot v g in
          rw (resolve_miss, e, g) (w, λ q h. lookup-Agrees truth slot q filled w.agrees h)
    ]
  ]

  -- Where the node answers truly, a call answers with the leader of the slot or not at all, whatever
  -- other threads did to the cache before the lock was taken; and the cache keeps to its bound and to
  -- true entries, also after an eviction.
  pub leader_for_slot-IsResolved :
      (before cache : LeaderCache) (slot : ℕ)
      → IsCache truth before
      → IsCache truth cache
      → IsResolved truth slot (leader_for_slot fetch before cache slot)
  unfolding leader_for_slot
  leader_for_slot-IsResolved before cache slot u v = elim (Option-cases (lookup slot before)) [
    | inr (pk, e) ↦
        rw (leader_for_slot, e) (v, λ q h. lookup-Agrees truth slot q before u.agrees (e ∙ h))
    | inl e ↦ rw (leader_for_slot, e) (resolve_miss-IsResolved cache slot v)
  ]
