-- ===== src/Listener/Leader/Full.antt =====
-- A full cache that holds later slots only.
use lattica.Prelude.{
  ℕ, suc, ◌+◌, ◌-◌, ◌%◌, ◌^◌, ◌≤◌, ◌<◌, true, false, none, some, List, [], ◌∷◌, ◌==◌, ==_iff, ltb,
  lt→ltb, le→ltb_false, length, All, ◌≡◌, ◌≢◌, refl, ap, ◌∙◌, inl, inr, Bool-cases, arith,
}
use lattica.Prelude.Bytes.{Bytes}
use lattica.Listener.Leader.{
  batch_size, max_cache_entries, LeaderCache, FetchWindow, lookup, insert_leader, insert_window,
  evict, fill_window, resolve_miss, leader_for_slot,
}
use lattica.Listener.Leader.Cache.{evicted_is_drop, All-drop}

-- No entry of the slot.
abbrev Misses : ℕ → LeaderCache → Type 0
Misses slot cache = All (λ (e : ℕ × Bytes). slot ≢ e.0) cache

differ : (a b : ℕ) → a ≢ b → (a == b) ≡ false
differ a b h = elim (Bool-cases (a == b)) [ inl e ↦ absurd (h ((==_iff a b).0 e)) | inr e ↦ e ]

lookup-Misses : (slot : ℕ) (cache : LeaderCache) → Misses slot cache → lookup slot cache ≡ none
unfolding lookup
lookup-Misses slot [] h = refl
lookup-Misses slot ((s, pk) ∷ rest) h = rw (differ slot s h.0) (lookup-Misses slot rest h.1)

later-Misses :
    (slot : ℕ) (cache : LeaderCache) → All (λ (e : ℕ × Bytes). slot < e.0) cache → Misses slot cache
later-Misses slot [] h = tt
later-Misses slot ((s, pk) ∷ rest) h =
    (λ e. absurd (omega (arith, h.0, e)), later-Misses slot rest h.1)

-- Insertions at the front, behind it, and what they keep.
insert_front :
    (slot : ℕ) (pk : Bytes) (cache : LeaderCache)
    → All (λ (e : ℕ × Bytes). slot < e.0) cache
    → insert_leader slot pk cache ≡ (slot, pk) ∷ cache
unfolding insert_leader
insert_front slot pk [] h = refl
insert_front slot pk ((s, q) ∷ rest) h = rw (lt→ltb slot s h.0) refl

insert_behind :
    (slot at : ℕ) (pk q : Bytes) (rest : LeaderCache)
    → slot < at
    → insert_leader at q ((slot, pk) ∷ rest) ≡ (slot, pk) ∷ insert_leader at q rest
unfolding insert_leader
insert_behind slot at pk q rest h =
    rw (le→ltb_false at slot (omega (arith, h)), differ at slot (λ e. absurd (omega (arith, h, e))))
      refl

insert_leader-Misses :
    (slot at : ℕ) (q : Bytes) (cache : LeaderCache)
    → slot ≢ at
    → Misses slot cache
    → Misses slot (insert_leader at q cache) × (length cache ≤ length (insert_leader at q cache))
unfolding insert_leader
insert_leader-Misses slot at q [] e h = ((e, tt), omega arith)
insert_leader-Misses slot at q ((s, pk) ∷ rest) e h =
    let (missing, longer) = insert_leader-Misses slot at q rest e h.1 in
    elim (Bool-cases (ltb at s)) [
      | inl less ↦ rw less ((e, h), omega arith)
      | inr geq ↦ elim (Bool-cases (at == s)) [
        | inl same ↦ rw (geq, same) ((e, h.1), omega arith)
        | inr other ↦ rw (geq, other) ((h.0, missing), omega (arith, longer))
      ]
    ]

-- The later leaders of a window go behind the first.
window_behind :
    (slot i : ℕ) (pk : Bytes) (leaders : List Bytes) (rest : LeaderCache)
    → 1 ≤ i
    → slot + i + length leaders ≤ 2 ^ 64
    → Misses slot rest
    → (others : LeaderCache) × (insert_window slot i leaders ((slot, pk) ∷ rest)
        ≡ (slot, pk) ∷ others)
      × Misses slot others
      × (length rest ≤ length others)
unfolding insert_window
window_behind slot i pk [] rest pos fits h = (rest, refl, h, omega arith)
window_behind slot i pk (q ∷ leaders) rest pos fits h =
    let at : (slot + i) % 2 ^ 64 ≡ slot + i = omega (arith, fits) in
    let (missing, longer) =
      insert_leader-Misses slot (slot + i) q rest (λ e. absurd (omega (arith, pos, e))) h in
    let (others, run, kept, more) =
      window_behind slot (suc i) pk leaders (insert_leader (slot + i) q rest) (omega (arith, pos))
        (omega (arith, fits)) missing in
    (
      others,
      ap (λ n. insert_window slot (suc i) leaders (insert_leader n q ((slot, pk) ∷ rest))) at
          ∙ ap (insert_window slot (suc i) leaders)
              (insert_behind slot (slot + i) pk q rest (omega (arith, pos)))
          ∙ run,
      kept,
      omega (arith, more, longer),
    )

-- What is evicted from a cache that is over full includes its first entry.
evict-Misses :
    (slot : ℕ) (pk : Bytes) (rest : LeaderCache)
    → Misses slot rest
    → max_cache_entries ≤ length rest
    → Misses slot (evict ((slot, pk) ∷ rest))
unfolding evict
evict-Misses slot pk rest h full =
    let n = length rest - max_cache_entries in
    let over : ltb max_cache_entries (suc (length rest)) ≡ true =
      lt→ltb _ _ (omega (arith, full)) in
    let count : suc (length rest) - max_cache_entries ≡ suc n = omega (arith, full) in
    rw (over, evicted_is_drop (suc (length rest) - max_cache_entries) ((slot, pk) ∷ rest), count)
      (All-drop (λ (e : ℕ × Bytes). slot ≢ e.0) n rest h)

fill_window-Misses :
    (fetch : FetchWindow) (cache : LeaderCache) (slot : ℕ) (pk : Bytes) (leaders : List Bytes)
    → fetch slot batch_size ≡ some (pk ∷ leaders)
    → slot + length (pk ∷ leaders) ≤ 2 ^ 64
    → max_cache_entries ≤ length cache
    → All (λ (e : ℕ × Bytes). slot < e.0) cache
    → (filled : LeaderCache) × (fill_window fetch cache slot ≡ some filled) × Misses slot filled
unfolding fill_window insert_window
fill_window-Misses fetch cache slot pk leaders answer fits full later =
    let at : (slot + 0) % 2 ^ 64 ≡ slot = omega (arith, fits) in
    let (others, run, kept, more) =
      window_behind slot 1 pk leaders cache (omega arith) (omega (arith, fits))
        (later-Misses slot cache later) in
    let window : insert_window slot 0 (pk ∷ leaders) cache ≡ (slot, pk) ∷ others =
      ap (λ n. insert_window slot 1 leaders (insert_leader n pk cache)) at
      ∙ ap (insert_window slot 1 leaders) (insert_front slot pk cache later)
      ∙ run in
    (
      evict ((slot, pk) ∷ others),
      rw answer (ap (λ c. some (evict c)) window),
      evict-Misses slot pk others kept (omega (arith, full, more)),
    )

-- With a cache that is full and holds only slots later than the one asked for, the resolver gives no
-- leader, although the node answers with at least one: the window that was fetched is what is evicted.
pub leader_for_slot-none :
    (fetch : FetchWindow) (cache : LeaderCache) (slot : ℕ) (pk : Bytes) (leaders : List Bytes)
    → fetch slot batch_size ≡ some (pk ∷ leaders)
    → slot + length (pk ∷ leaders) ≤ 2 ^ 64
    → max_cache_entries ≤ length cache
    → All (λ (e : ℕ × Bytes). slot < e.0) cache
    → (leader_for_slot fetch cache cache slot).1 ≡ none
unfolding leader_for_slot resolve_miss
leader_for_slot-none fetch cache slot pk leaders answer fits full later =
    let missed = lookup-Misses slot cache (later-Misses slot cache later) in
    let (filled, run, gone) =
      fill_window-Misses fetch cache slot pk leaders answer fits full later in
    rw (leader_for_slot, missed, resolve_miss, missed, run) (lookup-Misses slot filled gone)
