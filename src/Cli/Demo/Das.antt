-- ===== src/Cli/Demo/Das.antt =====
-- The verdict of `das-demo`.
use lattica.Prelude.{ℕ, zero, suc, ◌*◌, List, length, replicate, ◌≡◌, ◌≢◌, ◌∙◌, arith}
use lattica.Prelude.Bytes.{Bytes, to_le_bytes, length-to_le_bytes}
use lattica.Prelude.Buffers.{sizes, length-join}
use lattica.Shred.Merkle.{IsSha256}
use lattica.Shred.Erasure.{IsEncoder}
use lattica.Shred.FecSet.{Signer, FecSet}
use lattica.Shred.FecSet.Loops.{tabulate, All-tabulate}
use lattica.Shred.FecSet.Results.{IsKeyPair}
use lattica.Listener.State.{Env}
use lattica.Listener.Ingest.Complete.{IsRecovering}
use lattica.Listener.Ingest.Packets.{AllDifferent}
use lattica.Cli.Demo.{words_below}

pub length-words_below : (n : ℕ) → length (words_below n) ≡ 4 * n
unfolding words_below
length-words_below n = length-join (tabulate (to_le_bytes 4) 0 n) ∙ sizes-words 0 n
  where
    sizes-words : (i n : ℕ) → sizes (tabulate (to_le_bytes 4) i n) ≡ 4 * n
    sizes-words i zero = omega arith
    sizes-words i (suc n) = omega (arith, length-to_le_bytes 4 i, sizes-words (suc i) n)

abbrev pub numbers : ℕ → ℕ → List ℕ
numbers i n = tabulate (λ k. k) i n

pub different : (i n : ℕ) → AllDifferent (numbers i n)
different i zero = tt
different i (suc n) = (
  All-tabulate (λ j. j ≢ i) (λ k. k) (suc i) n (λ k lo hi e. absurd (omega (arith, e))),
  different (suc i) n,
)

module _ (env : Env) (signer : Signer) (from_bytes : Bytes → signer.SigningKey)
    (laws : IsSha256 env.sha) (enc : IsEncoder env.rs) (recovers : IsRecovering env.rs)
    (pair : IsKeyPair env.ed signer (from_bytes (replicate 32 0x4c))) where
  abbrev signing : signer.SigningKey
  signing = from_bytes (replicate 32 0x4c)
