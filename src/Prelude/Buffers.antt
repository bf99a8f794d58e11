-- ===== src/Prelude/Buffers.antt =====
-- Writes into a byte buffer (`buf[i] = x`, `buf[a..b].copy_from_slice(src)`), and buffers that are
-- joined from segments.
use Prim.Native.Nat.{ℕ, zero, suc, ◌+◌, ◌-◌, ◌^◌, ◌≤◌, ◌<◌}
use mathlib.Core.Path.{◌≡◌, refl, sym, ap, ◌∙◌}
use mathlib.Core.Bool.{◌&&◌}
use mathlib.Core.List.{List, [], ◌∷◌, ◌++◌, append_assoc, append-nil}
use native.Mathlib.Omega.{arith}
use lattica.Prelude.Tests.{ltb, leb, ◌==◌, ==_iff, le→leb, lt→ltb, if◌then◌else◌}
use lattica.Prelude.Lists.{
  length, take, drop, set, get_or, length-append, take-append, drop-append, All, All-append,
}
use lattica.Prelude.Bytes.{
  Bytes, to_le_bytes, from_le_bytes, length-to_le_bytes, from_le_bytes-to_le_bytes,
}
use lattica.Prelude.Outcome.{Outcome, ok, panic}

-- `buf[a..b].copy_from_slice(src)` panics out of range and where the lengths differ.
unfoldable pub copy_from_slice {ℓ} : {E : Type ℓ} → Bytes → ℕ → ℕ → Bytes → Outcome E Bytes
copy_from_slice buf a b src =
    if leb a b && (leb b (length buf) && length src == b - a)
    then ok (take a buf ++ (src ++ drop b buf))
    else panic

unfoldable pub set_byte {ℓ} : {E : Type ℓ} → Bytes → ℕ → ℕ → Outcome E Bytes
set_byte buf i x = if ltb i (length buf) then ok (set buf i x) else panic

abbrev pub join : List Bytes → Bytes
join [] = []
join (e ∷ es) = e ++ join es

-- The length of the segments together.
abbrev pub sizes : List Bytes → ℕ
sizes [] = 0
sizes (e ∷ es) = length e + sizes es

pub length-join : (es : List Bytes) → length (join es) ≡ sizes es
length-join [] = refl
length-join (e ∷ es) = omega (arith, length-append e (join es), length-join es)

pub join-append : (es fs : List Bytes) → join (es ++ fs) ≡ join es ++ join fs
join-append [] fs = refl
join-append (e ∷ es) fs =
    ap (λ t. e ++ t) (join-append es fs) ∙ sym (append_assoc e (join es) (join fs))

take_exact : (n : ℕ) (xs ys : Bytes) → n ≡ length xs → take n (xs ++ ys) ≡ xs
take_exact n xs ys e = rw e (take-append xs ys)

drop_exact : (n : ℕ) (xs ys : Bytes) → n ≡ length xs → drop n (xs ++ ys) ≡ ys
drop_exact n xs ys e = rw e (drop-append xs ys)

drop_both : (b : ℕ) (xs ys zs : Bytes) → b ≡ length xs + length ys → drop b (xs ++ (ys ++ zs)) ≡ zs
drop_both b xs ys zs e =
    rw (← append_assoc xs ys zs)
      (drop_exact b (xs ++ ys) zs (omega (arith, e, length-append xs ys)))

copy_between {ℓ} :
    {E : Type ℓ} (pre mid post src : Bytes) (a b : ℕ)
    → a ≡ length pre
    → b ≡ a + length mid
    → length src ≡ length mid
    → copy_from_slice {E = E} (pre ++ (mid ++ post)) a b src ≡ ok (pre ++ (src ++ post))
unfolding copy_from_slice
copy_between pre mid post src a b ha hb hs =
    let inside : b ≤ length (pre ++ (mid ++ post)) =
      omega (arith, length-append pre (mid ++ post), length-append mid post, ha, hb) in
    rw
      (
        le→leb a b (omega (arith, hb)),
        le→leb b (length (pre ++ (mid ++ post))) inside,
        (==_iff (length src) (b - a)).1 (omega (arith, hb, hs)),
        take_exact a pre (mid ++ post) ha,
        drop_both b pre mid post (omega (arith, ha, hb)),
      )
      refl

-- A write over one segment.
pub copy-join {ℓ} :
    {E : Type ℓ} (before : List Bytes) (mid : Bytes) (after : List Bytes) (src : Bytes) (a b : ℕ)
    → a ≡ sizes before
    → b ≡ a + length mid
    → length src ≡ length mid
    → copy_from_slice {E = E} (join (before ++ (mid ∷ after))) a b src
      ≡ ok (join (before ++ (src ∷ after)))
copy-join before mid after src a b ha hb hs =
    rw (join-append before (mid ∷ after), join-append before (src ∷ after))
      (copy_between (join before) mid (join after) src a b (omega (arith, ha, length-join before))
        hb hs)

set_at :
    (pre post : Bytes) (x y i : ℕ)
    → i ≡ length pre
    → set (pre ++ (y ∷ post)) i x ≡ pre ++ (x ∷ post)
set_at pre post x y i e = rw e (go pre)
  where
    go : (pre : Bytes) → set (pre ++ (y ∷ post)) (length pre) x ≡ pre ++ (x ∷ post)
    go [] = refl
    go (z ∷ pre) = ap (λ t. z ∷ t) (go pre)

-- A write over a segment of one byte.
pub set_byte-join {ℓ} :
    {E : Type ℓ} (before : List Bytes) (y : ℕ) (after : List Bytes) (x i : ℕ)
    → i ≡ sizes before
    → set_byte {E = E} (join (before ++ ((y ∷ []) ∷ after))) i x
      ≡ ok (join (before ++ ((x ∷ []) ∷ after)))
unfolding set_byte
set_byte-join before y after x i e =
    let at : i ≡ length (join before) = omega (arith, e, length-join before) in
    rw
      (
        join-append before ((y ∷ []) ∷ after),
        join-append before ((x ∷ []) ∷ after),
        lt→ltb i (length (join before ++ (y ∷ join after)))
            (omega (arith, at, length-append (join before) (y ∷ join after))),
        set_at (join before) (join after) x y i at,
      )
      refl

-- What is read from the offset of a segment, up to the end of some.
pub field-join :
    (before mids after : List Bytes) (a b : ℕ)
    → a ≡ sizes before
    → b ≡ a + sizes mids
    → take (b - a) (drop a (join (before ++ (mids ++ after)))) ≡ join mids
field-join before mids after a b ha hb =
    rw
      (
        join-append before (mids ++ after),
        join-append mids after,
        drop_exact a (join before) (join mids ++ join after)
            (omega (arith, ha, length-join before)),
      )
      (take_exact (b - a) (join mids) (join after) (omega (arith, hb, length-join mids)))

pub get_or-join :
    (before : List Bytes) (x : ℕ) (after : List Bytes) (i : ℕ)
    → i ≡ sizes before
    → get_or (join (before ++ ((x ∷ []) ∷ after))) i 0 ≡ x
get_or-join before x after i e =
    rw (join-append before ((x ∷ []) ∷ after))
      (go (join before) (join after) i (omega (arith, e, length-join before)))
  where
    go : (pre post : Bytes) (i : ℕ) → i ≡ length pre → get_or (pre ++ (x ∷ post)) i 0 ≡ x
    go [] post zero e = refl
    go [] post (suc i) e = absurd (omega arith)
    go (z ∷ pre) post zero e = absurd (omega arith)
    go (z ∷ pre) post (suc i) e = go pre post i (omega arith)

pub All-join {κ} : (P : ℕ → Type κ) (es : List Bytes) → All (All P) es → All P (join es)
All-join P [] h = tt
All-join P (e ∷ es) h = All-append P e (join es) h.0 (All-join P es h.1)

-- One segment of a buffer.
pub segment :
    (before : List Bytes) (mid : Bytes) (after : List Bytes) (a b : ℕ)
    → a ≡ sizes before
    → b ≡ a + length mid
    → take (b - a) (drop a (join (before ++ (mid ∷ after)))) ≡ mid
segment before mid after a b ha hb =
    field-join before (mid ∷ []) after a b ha (omega (arith, hb)) ∙ append-nil mid

pub number_segment :
    (before : List Bytes) (k v : ℕ) (after : List Bytes) (a b : ℕ)
    → v < 256 ^ k
    → a ≡ sizes before
    → b ≡ a + k
    → from_le_bytes (take (b - a) (drop a (join (before ++ (to_le_bytes k v ∷ after))))) ≡ v
number_segment before k v after a b h ha hb =
    ap from_le_bytes
      (segment before (to_le_bytes k v) after a b ha (omega (arith, hb, length-to_le_bytes k v)))
    ∙ from_le_bytes-to_le_bytes k v h
