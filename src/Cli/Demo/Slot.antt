-- ===== src/Cli/Demo/Slot.antt =====
-- The verdict of `slot-demo`.
use lattica.Prelude.{
  ℕ, zero, suc, ◌+◌, ◌*◌, ◌^◌, Bool, ◌≤◌, ◌<◌, true, false, List, [], ◌∷◌, ◌++◌, map, take, length,
  get_or, replicate, ◌≡◌, refl, sym, ap, ◌∙◌, arith, bit_or,
}
use lattica.Prelude.Bytes.{Bytes}
use lattica.Prelude.Outcome.{ok, >>=-eq-ok}
use lattica.Prelude.Machine.{success}
use lattica.Shred.Merkle.{IsSha256}
use lattica.Shred.Erasure.{IsEncoder}
use lattica.Shred.Variant.{shred_flag_data_complete, shred_flag_last_in_slot}
use lattica.Shred.FecSet.{Signer, FecSet, build_fec_set}
use lattica.Shred.FecSet.Build.{IsParams}
use lattica.Shred.FecSet.Loops.{All-tabulate}
use lattica.Shred.FecSet.Results.{IsKeyPair}
use lattica.Listener.State.{
  Env, FecEvent, started, shred_accepted, reconstructed, slot_finalized, rejected, FecAssembler,
  new_assembler,
}
use lattica.Listener.Ingest.{Step, ingest}
use lattica.Listener.Run.{ingest_all}
use lattica.Listener.Ingest.Complete.{IsRecovering}
use lattica.Listener.Ingest.Packets.{build_fec_set-Supply}
use lattica.Listener.Ingest.TwoSets.{IsFinalized}
use lattica.Listener.Ingest.Slot.{IsDataShreds, build_fec_set-IsFinalized}
use lattica.Listener.Ingest.Whole.{final_total, final_total-append}
use lattica.Cli.Demo.{
  words_below, slot_params, mk_set, count_finalized, deliver_set, deliver_both, cmd_slot_demo,
}
use lattica.Cli.Demo.Das.{numbers, different, length-words_below}

count_finalized-total :
    {F R : Type 0} (seen : ℕ) (es : List (FecEvent F R))
    → count_finalized seen es ≡ seen + final_total es
unfolding count_finalized
count_finalized-total seen [] = omega arith
count_finalized-total seen (slot_finalized slot roots root total das ∷ es) =
    omega (arith, count_finalized-total (seen + 1) es)
count_finalized-total seen (reconstructed key root das ∷ es) =
    omega (arith, count_finalized-total seen es)
count_finalized-total seen (started key root ∷ es) = omega (arith, count_finalized-total seen es)
count_finalized-total seen (shred_accepted key n i ∷ es) =
    omega (arith, count_finalized-total seen es)
count_finalized-total seen (rejected reason ∷ es) = omega (arith, count_finalized-total seen es)

-- The loop is `ingest_all` with the count.
deliver_set_lem :
    (env : Env) (raws : List Bytes) (a : FecAssembler env.float.F) (seen : ℕ) (r : Step env)
    → ingest_all env a raws ≡ ok r
    → deliver_set env raws a seen ≡ ok (r.0, seen + final_total r.1)
unfolding deliver_set ingest_all
deliver_set_lem env [] a seen r run =
    let e : (a, []) ≡ r = cc in
    let same : seen ≡ seen + 0 = omega arith in
    ap (λ n. ok (a, n)) same ∙ ap (λ (t : Step env). ok (t.0, seen + final_total t.1)) e
deliver_set_lem env (raw ∷ raws) a seen r run =
    let (first, fed, rest) = >>=-eq-ok (ingest env a raw) _ run in
    let (last, ended, same) = >>=-eq-ok (ingest_all env first.0 raws) _ rest in
    let e : (last.0, first.1 ++ last.1) ≡ r = cc in
    let counted : count_finalized seen first.1 + final_total last.1
        ≡ seen + final_total (first.1 ++ last.1) =
      omega (arith, count_finalized-total seen first.1, final_total-append first.1 last.1) in
    rw fed (
      deliver_set_lem env raws first.0 (count_finalized seen first.1) last ended
      ∙ ap (λ n. ok (last.0, n)) counted
      ∙ ap (λ (t : Step env). ok (t.0, seen + final_total t.1)) e)

numbers-suc :
    (x : Bytes) (xs : List Bytes) (i n : ℕ)
    → map (λ k. get_or (x ∷ xs) k []) (numbers (suc i) n) ≡ map (λ k. get_or xs k []) (numbers i n)
numbers-suc x xs i zero = refl
numbers-suc x xs i (suc n) = ap (λ t. get_or xs i [] ∷ t) (numbers-suc x xs (suc i) n)

take-numbers :
    (xs : List Bytes) (n : ℕ) → n ≤ length xs → take n xs ≡ map (λ k. get_or xs k []) (numbers 0 n)
take-numbers xs zero h = refl
take-numbers [] (suc n) h = absurd (omega (arith, h))
take-numbers (x ∷ xs) (suc n) h =
    ap (λ t. x ∷ t) (take-numbers xs n (omega (arith, h)) ∙ sym (numbers-suc x xs 0 n))

slot_params-IsParams :
    {K : Type 0} (signing : K) (idx : ℕ) (last : Bool)
    → idx + 32 ≤ 2 ^ 32
    → IsParams (slot_params signing idx last)
slot_params-IsParams signing idx last h = record {
  slot_range = omega arith;
  index_range = omega (arith, h);
  version_range = omega arith;
  root_len = refl;
}

pub first_data : IsDataShreds (numbers 0 32)
first_data = record {
  count = refl;
  low = All-tabulate (λ i. i < 32) (λ k. k) 0 32 (λ k lo hi. omega (arith, hi));
  apart = different 0 32;
}

module _ (env : Env) (signer : Signer) (from_bytes : Bytes → signer.SigningKey)
    (laws : IsSha256 env.sha) (enc : IsEncoder env.rs) (recovers : IsRecovering env.rs)
    (pair : IsKeyPair env.ed signer (from_bytes (replicate 32 0x5a))) where
  abbrev signing : signer.SigningKey
  signing = from_bytes (replicate 32 0x5a)

  fits : length (words_below 3000) ≤ 963 * 32
  fits = omega (arith, length-words_below 3000)

  -- A set that is built has the 32 data shreds that the loop takes.
  mk_set_lem :
      (idx : ℕ) (last : Bool) (set : FecSet)
      → idx + 32 ≤ 2 ^ 32
      → build_fec_set env.overflow_checks env.sha env.rs signer
          (words_below 3000)
          (slot_params signing idx last)
        ≡ ok set
      → (mk_set env signer signing idx last ≡ ok set.shreds)
        × (take 32 set.shreds ≡ map (λ i. get_or set.shreds i []) (numbers 0 32))
  unfolding mk_set
  mk_set_lem idx last set h run =
      let (other, again, _, count, _) =
        build_fec_set-Supply env signer (words_below 3000) (slot_params signing idx last) laws enc
          (slot_params-IsParams signing idx last h) fits pair in
      let same : other ≡ set = cc in
      let enough : length set.shreds ≡ 64 =
        ap (λ (t : FecSet). length t.shreds) (sym same) ∙ count in
      (rw run refl, take-numbers set.shreds 32 (omega (arith, enough)))

  deliver_both_lem :
      {slot : ℕ} {root_a root_b : Bytes} {raws_a raws_b : List Bytes} (set_a set_b : List Bytes)
      (w : IsFinalized env (signer.verifying_key signing) slot root_a root_b raws_a raws_b)
      → take 32 set_a ≡ raws_a
      → take 32 set_b ≡ raws_b
      → deliver_both env (signer.verifying_key signing) set_a set_b ≡ ok (w.second.0, 1)
  unfolding deliver_both
  deliver_both_lem {raws_a = raws_a} {raws_b = raws_b} set_a set_b w taken_a taken_b =
      let start : FecAssembler env.float.F = new_assembler (signer.verifying_key signing) in
      let none_yet : 0 + final_total w.first.1 ≡ 0 = omega (arith, w.silent) in
      let one : 0 + final_total w.second.1 ≡ 1 = omega (arith, w.once) in
      let fed_a =
        deliver_set_lem env raws_a start 0 w.first w.runs_first
        ∙ ap (λ n. ok (w.first.0, n)) none_yet in
      let fed_b =
        deliver_set_lem env raws_b w.first.0 0 w.second w.runs_second
        ∙ ap (λ n. ok (w.second.0, n)) one in
      rw (taken_a, taken_b, fed_a, fed_b) refl

  -- For a SHA-256 whose digests have 32 bytes, a key pair of the fixed seed whose signatures verify, and an
  -- erasure code that fills parity shards of the length of its non-empty shards and recovers a set from
  -- 32 of its 64 shards, `slot-demo` succeeds: the two sets are built, and feeding the data shreds of both
  -- finalizes the slot exactly once.
  pub cmd_slot_demo-success : cmd_slot_demo env signer from_bytes ≡ ok success
  unfolding cmd_slot_demo
  cmd_slot_demo-success =
      let (set_a, set_b, run_a, run_b, w) =
        build_fec_set-IsFinalized env signer (words_below 3000) (words_below 3000)
          (slot_params signing 0 false) 32 (bit_or shred_flag_data_complete shred_flag_last_in_slot)
          (replicate 32 0) laws enc recovers (slot_params-IsParams signing 0 false (omega arith))
          (slot_params-IsParams signing 32 true (omega arith)) fits fits (omega arith) refl refl
          pair (numbers 0 32) (numbers 0 32) first_data first_data in
      let (made_a, taken_a) = mk_set_lem 0 false set_a (omega arith) run_a in
      let (made_b, taken_b) = mk_set_lem 32 true set_b (omega arith) run_b in
      rw (made_a, made_b, deliver_both_lem set_a.shreds set_b.shreds w taken_a taken_b) refl
