-- ===== src/Listener/Run.antt =====
-- `ingest` on any bytes, and a run of it over a sequence of packets.
use lattica.Prelude.{
  ℕ, ◌+◌, ◌≤◌, true, Option, none, some, List, [], ◌∷◌, ◌++◌, length, All, ◌≡◌, refl, sym, ap,
  subst, ◌∙◌, ◌⊎◌, inl, inr, Bool-cases, Option-cases, arith,
}
use lattica.Prelude.Bytes.{Bytes, IsByte}
use lattica.Prelude.Outcome.{Outcome, ok, ◌>>=◌, Outcome-cases}
use lattica.Shred.Parse.{ParsedShred, parse_shred, expected_len}
use lattica.Shred.Parse.Ranges.{IsBackward, parse_shred-IsParsed, parse_shred-panic_iff}
use lattica.Shred.Verify.{VerifiedShred, verify_shred}
use lattica.Shred.Verify.Authentic.{IsAuthentic, verify_shred-IsAuthentic}
use lattica.Shred.Verify.Panics.{verify_shred-panic_iff}
use lattica.Listener.State.{
  Env, Reason, rejected, parse_error, no_leader, verify_error, FecAssembler, SlotState,
  with_resolver,
}
use lattica.Listener.Ingest.{Step, accept, after_events, ingest}
use lattica.Listener.Ingest.Steps.{IsReedSolomon}
use lattica.Listener.Ingest.Sound.{accept-Runs}
use lattica.Listener.Invariant.{
  AllStates, flag, flag_at, finalize_count, finalize_count-append, IsStep,
}

-- The bytes of a packet, on which parsing does not overflow in this build.
pub record IsPacket (env : Env) (raw : Bytes) : Type 0 where
  pub bytes : All IsByte raw
  pub no_overflow : ¬ ((env.overflow_checks ≡ true) × IsBackward raw)

-- The step of a packet that is turned down before the maps are touched.
abbrev pub turned_down : (env : Env) → FecAssembler env.float.F → Reason env.rs.Error → Step env
turned_down env a reason = (a, rejected reason ∷ [])

-- A verified shred, the parse that comes first and the leader of its slot.
pub record IsAccepted (env : Env) (a : FecAssembler env.float.F) (raw : Bytes) : Type 0 where
  pub parse : ParsedShred
  pub parsing : parse_shred env.overflow_checks raw ≡ ok parse
  pub leader : Bytes
  pub leads : a.leader_for_slot parse.header.slot ≡ some leader
  pub shred : VerifiedShred
  pub authentic : IsAuthentic env.overflow_checks env.sha env.ed raw leader shred
  pub runs : ingest env a raw ≡ accept env a raw parse shred

-- A packet on which the build does not overflow is turned down with one `rejected` event and the
-- assembler is as it was, or it is a shred that is signed by the leader of its slot.
pub ingest_cases :
    (env : Env) (a : FecAssembler env.float.F) (raw : Bytes)
    → IsPacket env raw
    → ((reason : Reason env.rs.Error) × (ingest env a raw ≡ ok (turned_down env a reason)))
      ⊎ IsAccepted env a raw
unfolding ingest
ingest_cases env a raw packet =
    let c = env.overflow_checks in
    elim (Outcome-cases (parse_shred c raw)) [
      | inr (inr e) ↦ absurd (packet.no_overflow ((parse_shred-panic_iff c raw packet.bytes).0 e))
      | inr (inl (x, e)) ↦ inl (parse_error x, rw (ingest, e) refl)
      | inl (p, parsing) ↦ elim (Option-cases (a.leader_for_slot p.header.slot)) [
        | inl e ↦ inl (no_leader p.header.slot, rw (ingest, parsing, e) refl)
        | inr (pk, leads) ↦ elim (Outcome-cases (verify_shred c env.sha env.ed raw pk)) [
          | inr (inr e) ↦ absurd (
              packet.no_overflow
                ((verify_shred-panic_iff c env.sha env.ed raw pk packet.bytes).0 e))
          | inr (inl (x, e)) ↦ inl (verify_error x, rw (ingest, parsing, leads, e) refl)
          | inl (v, e) ↦ inr (record {
            parse = p;
            parsing = parsing;
            leader = pk;
            leads = leads;
            shred = v;
            authentic = verify_shred-IsAuthentic c env.sha env.ed raw pk packet.bytes v e;
            runs = rw (ingest, parsing, leads, e) refl;
          })
        ]
      ]
    ]

-- Packets fed one after the other.
unfoldable pub ingest_all :
    (env : Env) → FecAssembler env.float.F → List Bytes → Outcome ⊥ (Step env)
ingest_all env a [] = ok (a, [])
ingest_all env a (raw ∷ raws) =
    ingest env a raw >>= λ r. ingest_all env r.0 raws >>= after_events env r.1

payload_in_buffer :
    (env : Env) (raw leader : Bytes) (v : VerifiedShred)
    → All IsByte raw
    → IsAuthentic env.overflow_checks env.sha env.ed raw leader v
    → expected_len v.kind ≤ length raw
payload_in_buffer env raw leader v bytes z =
    let shape = parse_shred-IsParsed env.overflow_checks raw z.shred bytes z.from_raw in
    subst (λ k. expected_len k ≤ length raw) (sym (ap (λ (s : VerifiedShred). s.kind) z.fields))
      shape.in_buffer

module _ (env : Env) (laws : IsReedSolomon env.rs) where
  -- Fed with any packet on which the build does not overflow, an assembler whose FEC states satisfy
  -- their invariant returns. Its states still satisfy it, a slot is finalized only if it was not
  -- before and then is, and what is reported as reconstructed is then a set of 32 shreds at least
  -- under that root. The erasure code is assumed not to panic.
  pub ingest-IsStep :
      (a : FecAssembler env.float.F) (raw : Bytes)
      → AllStates a
      → IsPacket env raw
      → (r : Step env) × (ingest env a raw ≡ ok r) × IsStep env a r
  ingest-IsStep a raw all packet = elim (ingest_cases env a raw packet) [
    | inl (reason, e) ↦ (
      turned_down env a reason,
      e,
      record { states = all; once = λ slot. omega arith; reports = (tt, tt) },
    )
    | inr z ↦
        let (r, same, step) =
          accept-Runs env laws a raw z.parse z.shred all
            (payload_in_buffer env raw z.leader z.shred packet.bytes z.authentic) in
        (r, z.runs ∙ same, step)
  ]

  ingest_all_run :
      (a : FecAssembler env.float.F) (raws : List Bytes)
      → AllStates a
      → All (IsPacket env) raws
      → (r : Step env) × (ingest_all env a raws ≡ ok r)
        × AllStates r.0
        × ((slot : ℕ) → finalize_count slot r.1 + flag_at a slot ≤ flag_at r.0 slot)
  unfolding ingest_all
  ingest_all_run a [] all packets = ((a, []), refl, all, λ slot. omega arith)
  ingest_all_run a (raw ∷ raws) all packets =
      let (r, same, step) = ingest-IsStep a raw all packets.0 in
      let (q, rest, kept, once) = ingest_all_run r.0 raws step.states packets.1 in
      (
        (q.0, r.1 ++ q.1),
        rw (same, rest) refl,
        kept,
        λ slot. omega (arith, step.once slot, once slot, finalize_count-append slot r.1 q.1),
      )

  pub flag_le_one : (o : Option SlotState) → flag o ≤ 1
  flag_le_one none = omega arith
  flag_le_one (some s) = elim (Bool-cases s.finalized) [
    | inl e ↦ rw e (omega arith)
    | inr e ↦ rw e (omega arith)
  ]

  -- Over any sequence of packets on which the build does not overflow, a new assembler returns, keeps
  -- the invariant of its FEC states, and finalizes each slot at most once. The erasure code is assumed
  -- not to panic.
  pub ingest_all-finalize_count :
      (leader_for_slot : ℕ → Option Bytes) (raws : List Bytes)
      → All (IsPacket env) raws
      → (r : Step env) × (ingest_all env (with_resolver leader_for_slot) raws ≡ ok r)
        × AllStates r.0
        × ((slot : ℕ) → finalize_count slot r.1 ≤ 1)
  ingest_all-finalize_count resolver raws packets =
      let (r, same, kept, once) =
        ingest_all_run (with_resolver resolver) raws (λ k s e. cc) packets in
      (r, same, kept, λ slot. omega (arith, once slot, flag_le_one (r.0.slots slot)))
