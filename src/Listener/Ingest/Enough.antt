-- ===== src/Listener/Ingest/Enough.antt =====
-- What the handler does with a shred of a FEC set that is not reconstructed yet.
use lattica.Prelude.{
  ℕ, true, false, none, some, List, [], ◌∷◌, ◌++◌, ==_iff, if◌then◌else◌, if_true, if_false, ◌≡◌,
  ◌⊎◌, refl, ap, ◌∙◌, inl, inr,
}
use lattica.Prelude.Bytes.{Bytes}
use lattica.Prelude.Outcome.{ok, ◌>>=◌}
use lattica.Shred.Verify.{VerifiedShred}
use lattica.Listener.State.{
  FecKey, Env, reconstructed, started, FecState, new_state, FecAssembler, put_state, put_slot,
  state_or_new, das_confidence,
}
use lattica.Listener.Ingest.{
  key_of, finish, complete_set, after_events, store_shard, check_root, check_root_with, bytes_eq,
  enter, accept, ingest,
}
use lattica.Listener.Ingest.Complete.{Delivery, IsDelivery}

-- The event is among those of the list.
abbrev pub IsEvent : {R : Type 0} → R → List R → Type 0
IsEvent e [] = ⊥
IsEvent e (f ∷ fs) = (e ≡ f) ⊎ IsEvent e fs

pub IsEvent-front : {R : Type 0} (e : R) (es fs : List R) → IsEvent e es → IsEvent e (es ++ fs)
IsEvent-front e [] fs h = elim h [ ]
IsEvent-front e (f ∷ es) fs (inl h) = inl h
IsEvent-front e (f ∷ es) fs (inr h) = inr (IsEvent-front e es fs h)

pub IsEvent-back : {R : Type 0} (e : R) (es fs : List R) → IsEvent e fs → IsEvent e (es ++ fs)
IsEvent-back e [] fs h = h
IsEvent-back e (f ∷ es) fs h = inr (IsEvent-back e es fs h)

bytes_eq_refl : (xs : Bytes) → bytes_eq xs xs ≡ true
unfolding bytes_eq
bytes_eq_refl [] = refl
bytes_eq_refl (x ∷ xs) = rw ((==_iff x x).1 refl, bytes_eq_refl xs) refl

module _ (env : Env) (leader : Bytes) (key : FecKey) (root : Bytes) where
  -- The assembler knows the leader of every slot.
  abbrev pub Led : FecAssembler env.float.F → Type 0
  Led a = (slot : ℕ) → a.leader_for_slot slot ≡ some leader

  pub ingest-accept :
      (a : FecAssembler env.float.F) (d : Delivery)
      → Led a
      → IsDelivery env leader key root d
      → ingest env a d.raw ≡ accept env a d.raw d.parse d.shred
  unfolding ingest
  ingest-accept a d led x = rw (ingest, x.parsing, led d.parse.header.slot, x.verifying) refl

  pub put_state-Led :
      (a : FecAssembler env.float.F) (v : VerifiedShred) (s t : FecState env.float.F)
      → Led a
      → Led (put_state (enter env.float a v s) (key_of v) t)
  unfolding put_state put_slot enter
  put_state-Led a v s t led = led

  -- A shred of a set that has a state with the root.
  pub accept-later :
      (a : FecAssembler env.float.F) (d : Delivery) (s : FecState env.float.F)
      → IsDelivery env leader key root d
      → a.states key ≡ some s
      → s.is_reconstructed ≡ false
      → s.merkle_root ≡ some root
      → accept env a d.raw d.parse d.shred
        ≡ store_shard env (enter env.float a d.shred s) d.raw d.parse d.shred s
  unfolding accept check_root
  accept-later a d s x here pending rooted =
      let v = d.shred in
      let entered = enter env.float a v s in
      ap
        (λ o.
          let s = state_or_new env.float o in
          let entered = enter env.float a v s in
          if s.is_reconstructed
          then ok (finish env entered v.slot)
          else check_root env entered d.raw d.parse v s)
        (ap a.states x.of_set ∙ here)
      ∙ if_false _ _ pending
      ∙ ap (check_root_with env entered d.raw d.parse v s) rooted
      ∙ if_true _ _ (ap (bytes_eq root) x.of_root ∙ bytes_eq_refl root)

  -- The first shred of the set.
  pub accept-first :
      (a : FecAssembler env.float.F) (d : Delivery)
      → IsDelivery env leader key root d
      → a.states key ≡ none
      → accept env a d.raw d.parse d.shred ≡ (
          store_shard env
            (enter env.float a d.shred (new_state env.float))
            d.raw
            d.parse
            d.shred
            (record (new_state env.float) { merkle_root = some d.shred.merkle_root })
          >>= after_events env (started (key_of d.shred) d.shred.merkle_root ∷ []))
  unfolding accept check_root
  accept-first a d x here =
      let v = d.shred in
      ap
        (λ o.
          let s = state_or_new env.float o in
          let entered = enter env.float a v s in
          if s.is_reconstructed
          then ok (finish env entered v.slot)
          else check_root env entered d.raw d.parse v s)
        (ap a.states x.of_set ∙ here)

  pub complete_set-IsEvent :
      (a : FecAssembler env.float.F) (v : VerifiedShred) (s : FecState env.float.F)
      → key_of v ≡ key
      → s.distinct_seen ≡ 32
      → IsEvent
          (reconstructed key root (das_confidence env.float 32))
          (complete_set env a v s root).1
  unfolding complete_set
  complete_set-IsEvent a v s e n = inl (rw (← e, ← n) refl)
