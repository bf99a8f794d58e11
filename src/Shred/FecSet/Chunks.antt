-- ===== src/Shred/FecSet/Chunks.antt =====
-- The parts into which the payload is cut, one for each data shred.
use lattica.Prelude.{
  ℕ, zero, suc, ◌+◌, ◌-◌, ◌*◌, ◌≤◌, [], ◌∷◌, ◌++◌, ltb, ltb→lt, ltb-false, length, length-take,
  length-drop, take, drop, take-append-drop, min, All, All-take, All-drop, ◌≡◌, refl, sym, ap, ◌∙◌,
  inl, inr, Bool-cases, arith,
}
use lattica.Prelude.Bytes.{Bytes, IsByte}
use lattica.Prelude.Outcome.{ok, slice_lem}
use lattica.Prelude.Buffers.{join}
use lattica.Shred.Variant.{ShredError}
use lattica.Shred.FecSet.{payload_slice}
use lattica.Shred.FecSet.Loops.{tabulate}

abbrev pub chunk_of : Bytes → ℕ → Bytes
chunk_of payload i = take 963 (drop (i * 963) payload)

take_all : (n : ℕ) (xs : Bytes) → take (min n (length xs)) xs ≡ take n xs
take_all zero xs = let e : min zero (length xs) ≡ 0 = omega arith in rw e refl
take_all (suc n) [] = let e : min (suc n) 0 ≡ 0 = omega arith in rw e refl
take_all (suc n) (x ∷ xs) =
    let e : min (suc n) (length (x ∷ xs)) ≡ suc (min n (length xs)) = omega arith in
    rw e (ap (λ t. x ∷ t) (take_all n xs))

drop_past : (n : ℕ) (xs : Bytes) → length xs ≤ n → drop n xs ≡ []
drop_past zero [] h = refl
drop_past zero (x ∷ xs) h = absurd (omega arith)
drop_past (suc n) [] h = refl
drop_past (suc n) (x ∷ xs) h = drop_past n xs (omega arith)

pub payload_slice_lem :
    (payload : Bytes) (i : ℕ) → payload_slice payload i ≡ ok (chunk_of payload i)
unfolding payload_slice
payload_slice_lem payload i =
    let off = i * 963 in
    let end = min (off + 963) (length payload) in
    elim (Bool-cases (ltb off (length payload))) [
      | inl e ↦
          let inside = ltb→lt _ _ e in
          let count : end - off ≡ min 963 (length (drop off payload)) =
            omega (arith, inside, length-drop off payload) in
          rw
            (
              e,
              slice_lem {E = ShredError} payload off end (omega (arith, inside)) (omega arith),
              count,
            )
            (ap ok (take_all 963 (drop off payload)))
      | inr e ↦ rw (e, drop_past off payload (ltb-false _ _ e)) refl
    ]

pub length-chunk_of : (payload : Bytes) (i : ℕ) → length (chunk_of payload i) ≤ 963
length-chunk_of payload i = omega (arith, length-take 963 (drop (i * 963) payload))

pub chunk_of-IsByte :
    (payload : Bytes) (i : ℕ) → All IsByte payload → All IsByte (chunk_of payload i)
chunk_of-IsByte payload i h = All-take IsByte 963 _ (All-drop IsByte (i * 963) payload h)

drop-drop : (n m : ℕ) (xs : Bytes) → drop m (drop n xs) ≡ drop (n + m) xs
drop-drop zero m xs = let e : zero + m ≡ m = omega arith in rw e refl
drop-drop (suc n) m [] = drop_past m [] (omega arith) ∙ sym (drop_past (suc n + m) [] (omega arith))
drop-drop (suc n) m (x ∷ xs) =
    let e : suc n + m ≡ suc (n + m) = omega arith in rw e (drop-drop n m xs)

-- The chunks from the `i`-th on are what follows the chunks before it.
pub chunks-join :
    (payload : Bytes) (n i : ℕ)
    → length payload ≤ (i + n) * 963
    → join (tabulate (chunk_of payload) i n) ≡ drop (i * 963) payload
chunks-join payload zero i h = sym (drop_past (i * 963) payload (omega arith))
chunks-join payload (suc n) i h =
    let next : i * 963 + 963 ≡ suc i * 963 = omega arith in
    let tail : drop 963 (drop (i * 963) payload) ≡ drop (suc i * 963) payload =
      drop-drop (i * 963) 963 payload ∙ ap (λ t. drop t payload) next in
    ap (λ t. chunk_of payload i ++ t) (chunks-join payload n (suc i) (omega arith) ∙ sym tail)
    ∙ take-append-drop 963 (drop (i * 963) payload)
