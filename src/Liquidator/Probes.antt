-- ===== src/Liquidator/Probes.antt =====
-- What two probing modes read out of an answer: the payload of the IDL account in
-- crates/liquidator/src/idl_dump.rs, and the line of a simulation's logs that
-- crates/liquidator/src/disc_probe.rs reports.
use lattica.Prelude.{
  ℕ, ◌+◌, ◌≤◌, ◌<◌, Bool, Option, none, some, List, [], ◌∷◌, ltb, lt→ltb, le→ltb_false, leb, leb→le,
  leb-false, Bool-cases, inl, inr, if◌then◌else◌, length, take, drop, ◌≡◌, ◌↔◌, refl, arith,
}
use mathlib.Core.List.{reverse}
use lattica.Prelude.Bytes.{Bytes, from_le_bytes}
use lattica.Prelude.Outcome.{Outcome, err, panic, ◌>>=◌, slice, slice_lem, slice_out}
use lattica.Prelude.Machine.{ascii}
use lattica.Prelude.Strings.{contains}
use lattica.Liquidator.Simulate.{or_later, contains_any}

pub data IdlError : Type 0 where
  too_small : ℕ → IdlError

-- `acct.data[40..44]` as a `u32`.
abbrev pub data_len : Bytes → ℕ
data_len account_data = from_le_bytes (take 4 (drop 40 account_data))

-- The compressed payload of the account.
unfoldable pub idl_payload : Bytes → Outcome IdlError Bytes
idl_payload account_data =
    if ltb (length account_data) 44
    then err (too_small (length account_data))
    else do len ← slice account_data 40 44; slice account_data 44 (44 + from_le_bytes len)

-- `iter().find(..)`
unfoldable pub find_line : (Bytes → Bool) → List Bytes → Option Bytes
find_line p [] = none
find_line p (l ∷ ls) = let rest = find_line p ls in if p l then some l else rest

abbrev pub anchor_signals : List Bytes
anchor_signals =
    ascii "AnchorError" ∷ ascii "Constraint" ∷ ascii "AccountNot" ∷ ascii "AccountOwnedByWrong" ∷ []

-- The first line about an Anchor error, or else the last about an error of the program; `none` for the
-- error of the simulation itself.
unfoldable pub probe_summary : List Bytes → Option Bytes
probe_summary logs =
    or_later (find_line (contains_any anchor_signals) logs)
      (find_line (contains (ascii "custom program error")) (reverse logs))

-- An account of 44 bytes or more, whose length field is not compared with what there is, makes
-- `idl-dump` panic exactly if it declares more than it holds; a shorter account is an error.
pub idl_payload-panic_iff :
    (account_data : Bytes)
    → (length account_data < 44 → idl_payload account_data ≡ err (too_small (length account_data)))
      × (44 ≤ length account_data
          → (idl_payload account_data ≡ panic) ↔ (length account_data < 44 + data_len account_data))
unfolding idl_payload
idl_payload-panic_iff d = (
  λ h. rw (lt→ltb (length d) 44 h) refl,
  λ h.
      let read = slice_lem {E = IdlError} d 40 44 (omega arith) h in
      rw (le→ltb_false (length d) 44 h, read)
        (
          λ stuck. elim (Bool-cases (leb (44 + data_len d) (length d))) [
            | inr e ↦ leb-false _ _ e
            | inl e ↦ cc (
              stuck,
              slice_lem {E = IdlError} d 44 (44 + data_len d) (omega arith) (leb→le _ _ e),
            )
          ],
          slice_out d 44 (44 + data_len d),
        ),
)
