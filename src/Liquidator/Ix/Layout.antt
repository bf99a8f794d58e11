-- ===== src/Liquidator/Ix/Layout.antt =====
-- The data of the instruction, read back.
use mathlib.Core.List.{append-nil}
use lattica.Prelude.{
  ℕ, ◌-◌, ◌^◌, ◌<◌, Option, none, some, List, [], ◌∷◌, ◌++◌, ◌==◌, if◌then◌else◌, take, drop,
  get_or, ◌≡◌, refl, sym, ap, ◌∙◌, arith,
}
use lattica.Prelude.Bytes.{Bytes, to_le_bytes, from_le_bytes, length-to_le_bytes}
use lattica.Prelude.Buffers.{join, get_or-join, number_segment}
use lattica.Liquidator.Ix.{liquidate_perp_discriminator, instruction_data}

abbrev integer : Bytes → ℕ → ℕ → ℕ
integer xs a b = from_le_bytes (take (b - a) (drop a xs))

-- What a reader of the interface takes from the data: an index of 2 bytes and an amount of 8 after the
-- discriminator, and a limit after a tag that is not 0.
abbrev pub read_data : Bytes → ℕ × ℕ × Option ℕ
read_data xs = (
  integer xs 8 10,
  integer xs 10 18,
  if get_or xs 18 0 == 0 then none else some (integer xs 19 27),
)

data_fields :
    (market_index max_base tag : ℕ) (rest : List Bytes)
    → market_index < 2 ^ 16
    → max_base < 2 ^ 64
    → (xs : Bytes)
    → xs
      ≡ join (
          liquidate_perp_discriminator
          ∷ to_le_bytes 2 market_index
          ∷ to_le_bytes 8 max_base
          ∷ (tag ∷ [])
          ∷ rest)
    → (integer xs 8 10 ≡ market_index) × (integer xs 10 18 ≡ max_base) × (get_or xs 18 0 ≡ tag)
data_fields market_index max_base tag rest h k xs e =
    let d = liquidate_perp_discriminator in
    let i = to_le_bytes 2 market_index in
    let b = to_le_bytes 8 max_base in
    let l2 = length-to_le_bytes 2 market_index in
    let l8 = length-to_le_bytes 8 max_base in
    rw e (
      number_segment (d ∷ []) 2 market_index (b ∷ (tag ∷ []) ∷ rest) 8 10 (omega arith) refl refl,
      number_segment (d ∷ i ∷ []) 8 max_base ((tag ∷ []) ∷ rest) 10 18 (omega arith)
          (omega (arith, l2)) refl,
      get_or-join (d ∷ i ∷ b ∷ []) tag rest 18 (omega (arith, l2, l8)),
    )

read_none :
    (xs : Bytes) (i b : ℕ)
    → (integer xs 8 10 ≡ i) × (integer xs 10 18 ≡ b) × (get_or xs 18 0 ≡ 0)
    → read_data xs ≡ (i, b, none)
read_none xs i b (e, f, t) = rw (e, f, t) refl

read_some :
    (xs : Bytes) (i b p : ℕ)
    → (integer xs 8 10 ≡ i) × (integer xs 10 18 ≡ b) × (get_or xs 18 0 ≡ 1)
    → integer xs 19 27 ≡ p
    → read_data xs ≡ (i, b, some p)
read_some xs i b p (e, f, t) l = rw (e, f, t, l) refl

-- A limit of 64 bits.
abbrev pub IsLimit : Option ℕ → Type 0
IsLimit none = Unit
IsLimit (some p) = p < 2 ^ 64

-- For arguments in the range of their types, what is read back from the data of the instruction is the
-- market index, the amount and the limit, present or absent.
pub instruction_data-read_data :
    (market_index max_base : ℕ) (limit_price : Option ℕ)
    → market_index < 2 ^ 16
    → max_base < 2 ^ 64
    → IsLimit limit_price
    → read_data (instruction_data market_index max_base limit_price)
      ≡ (market_index, max_base, limit_price)
unfolding instruction_data
instruction_data-read_data market_index max_base none h k l =
    let xs = instruction_data market_index max_base none in
    read_none xs market_index max_base (data_fields market_index max_base 0 [] h k xs refl)
instruction_data-read_data market_index max_base (some p) h k l =
    let xs = instruction_data market_index max_base (some p) in
    let d = liquidate_perp_discriminator in
    let i = to_le_bytes 2 market_index in
    let b = to_le_bytes 8 max_base in
    let q = to_le_bytes 8 p in
    let tail : d ++ (i ++ (b ++ (1 ∷ q))) ≡ join (d ∷ i ∷ b ∷ (1 ∷ []) ∷ q ∷ []) =
      ap (λ r. d ++ (i ++ (b ++ (1 ∷ r)))) (sym (append-nil q)) in
    let l2 = length-to_le_bytes 2 market_index in
    let l8 = length-to_le_bytes 8 max_base in
    read_some xs market_index max_base p (data_fields market_index max_base 1 (q ∷ []) h k xs tail)
      (ap (λ r. integer r 19 27) tail
        ∙ number_segment (d ∷ i ∷ b ∷ (1 ∷ []) ∷ []) 8 p [] 19 27 (omega arith)
            (omega (arith, l2, l8)) refl)
