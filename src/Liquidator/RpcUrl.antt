-- ===== src/Liquidator/RpcUrl.antt =====
-- `env_rpc_url` and `redact_url` of crates/liquidator/src/paper.rs; simulate.rs, probe.rs,
-- disc_probe.rs and idl_dump.rs repeat the first word for word.
--
-- The environment variable and the files are arguments; `none` is an error.
use lattica.Prelude.{
  ℕ, zero, suc, ◌+◌, ◌≤◌, Option, none, some, List, [], ◌∷◌, ◌++◌, take, length, length-append, ◌≡◌,
  refl, sym, ap, ◌∙◌, arith,
}
use mathlib.Core.List.{append_assoc}
use lattica.Prelude.Bytes.{Bytes}
use lattica.Prelude.Optional.{◌>>=◌}
use lattica.Prelude.Machine.{ascii, strip_prefix}
use lattica.Prelude.Strings.{find, find-append, find-found, trim, split_lines}

abbrev pub url_key : Bytes
url_key = ascii "HELIUS_RPC_URL="

-- The first line that has the key.
unfoldable pub url_in_lines : List Bytes → Option Bytes
url_in_lines [] = none
url_in_lines (line ∷ lines) = elim (strip_prefix url_key (trim line)) [
  | some url ↦ some (trim url)
  | none ↦ url_in_lines lines
]

abbrev pub or_next : Option Bytes → Option Bytes → Option Bytes
or_next none next = next
or_next (some url) next = some url

-- The loop over the paths; a file that cannot be read is passed over.
unfoldable pub url_in_files : (Bytes → Option Bytes) → List Bytes → Option Bytes
url_in_files read [] = none
url_in_files read (path ∷ paths) =
    or_next (read path >>= λ contents. url_in_lines (split_lines contents))
      (url_in_files read paths)

unfoldable pub env_rpc_url : Option Bytes → (Bytes → Option Bytes) → Option Bytes
env_rpc_url (some v) read = some v
env_rpc_url none read = url_in_files read (ascii ".env" ∷ ascii "../.env" ∷ ascii "../../.env" ∷ [])

abbrev pub api_key : Bytes
api_key = ascii "api-key="

unfoldable pub redact_url : Bytes → Bytes
redact_url url = elim (find api_key url) [
  | some idx ↦ take (idx + 8) url ++ ascii "***"
  | none ↦ url
]

take-append_le : (n : ℕ) (xs k m : Bytes) → n ≤ length xs → take n (xs ++ k) ≡ take n (xs ++ m)
take-append_le zero xs k m h = refl
take-append_le (suc n) [] k m h = elim h [ ]
take-append_le (suc n) (x ∷ xs) k m h = ap (λ t. x ∷ t) (take-append_le n xs k m (omega arith))

-- The address that is logged does not depend on what follows the first `api-key=`.
pub redact_url-hides :
    (front key other : Bytes)
    → redact_url (front ++ (api_key ++ key)) ≡ redact_url (front ++ (api_key ++ other))
unfolding redact_url
redact_url-hides front key other =
    let (i, at, low) = find-found api_key front key in
    let at' = sym (find-append api_key front key other) ∙ at in
    rw (redact_url, at, at')
      (ap (λ t. t ++ ascii "***")
        (ap (take (i + 8)) (sym (append_assoc front api_key key))
          ∙ take-append_le (i + 8) (front ++ api_key) key other
              (omega (arith, low, length-append front api_key))
          ∙ ap (take (i + 8)) (append_assoc front api_key other)))
