-- ===== src/Cli/EnvUrl.antt =====
-- `env_url` of crates/cli/src/main.rs, against `env_rpc_url` of the liquidator.
use lattica.Prelude.{Option, none, some, ◌≡◌, refl, Option-cases, inl, inr}
use lattica.Prelude.Bytes.{Bytes}
use lattica.Prelude.Optional.{◌>>=◌}
use lattica.Prelude.Machine.{ascii}
use lattica.Prelude.Strings.{split_lines}
use lattica.Liquidator.RpcUrl.{url_in_lines, url_in_files, env_rpc_url}

-- The contents of the first of the two files that can be read.
abbrev pub or_second : Option Bytes → Option Bytes → Option Bytes
or_second none second = second
or_second (some contents) second = some contents

-- `none` for the exit with code 2.
unfoldable pub env_url : Option Bytes → (Bytes → Option Bytes) → Option Bytes
env_url (some v) read = some v
env_url none read = or_second (read (ascii ".env")) (read (ascii "../.env")) >>= λ contents.
    url_in_lines (split_lines contents)

-- Where the command line finds an address the liquidator finds the same.
pub env_url-env_rpc_url :
    (var : Option Bytes) (read : Bytes → Option Bytes) (url : Bytes)
    → env_url var read ≡ some url
    → env_rpc_url var read ≡ some url
unfolding env_url env_rpc_url url_in_files
env_url-env_rpc_url (some v) read url h = h
env_url-env_rpc_url none read url h = elim (Option-cases (read (ascii ".env"))) [
  | inr (contents, here) ↦
      let found : url_in_lines (split_lines contents) ≡ some url = rw here at h in
      rw (here, found) refl
  | inl missing ↦ elim (Option-cases (read (ascii "../.env"))) [
    | inl gone ↦ cc (rw (missing, gone) at h)
    | inr (contents, here) ↦
        let found : url_in_lines (split_lines contents) ≡ some url = rw (missing, here) at h in
        rw (missing, here, found) refl
  ]
]
