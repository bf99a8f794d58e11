-- ===== src/Cli/Dispatch.antt =====
-- The dispatch of `main` in crates/cli/src/main.rs.
use lattica.Prelude.{
  ℕ, ◌&&◌, Option, none, some, List, [], ◌∷◌, ◌==◌, ltb, if◌then◌else◌, get_elem?, get_or, length,
  ◌≡◌, refl,
}
use lattica.Prelude.Bytes.{Bytes}
use lattica.Prelude.Machine.{ascii, str_eq}

-- The commands with their arguments.
pub data Command : Type 0 where
  usage : Command
  slot : Command
  hash_account : (pubkey : Bytes) → Command
  verify_shred : (path : Bytes) → (leader : Bytes) → Command
  das_demo : (n : Bytes) → Command
  slot_demo : Command
  verify_slot : (mode : Bytes) → Command
  rpc_attest : (pubkey : Bytes) → (wait_slots : Bytes) → Command
  keygen : (path : Option Bytes) → Command
  leaders : (start : Bytes) → (count : Bytes) → Command

-- `match args[1].as_str()`; `args[0]` is the program's name. A later arm is tried where the guard of an
-- earlier one fails.
unfoldable pub command_of : List Bytes → Command
command_of args =
    let at = λ (i : ℕ). get_or args i [] in
    let n = length args in
    if ltb n 2
    then usage
    else if str_eq (at 1) (ascii "slot")
    then slot
    else if str_eq (at 1) (ascii "hash-account") && n == 3
    then hash_account (at 2)
    else if str_eq (at 1) (ascii "verify-shred") && n == 4
    then verify_shred (at 2) (at 3)
    else if str_eq (at 1) (ascii "das-demo") && n == 3
    then das_demo (at 2)
    else if str_eq (at 1) (ascii "slot-demo")
    then slot_demo
    else if str_eq (at 1) (ascii "verify-slot") && n == 3
    then verify_slot (at 2)
    else if str_eq (at 1) (ascii "rpc-attest") && n == 4
    then rpc_attest (at 2) (at 3)
    else if str_eq (at 1) (ascii "keygen")
    then keygen (get_elem? args 2)
    else if str_eq (at 1) (ascii "leaders") && n == 4
    then leaders (at 2) (at 3)
    else usage

-- The arguments of a command after the program's name, as the usage text lists them; `usage` is what
-- no arguments lead to.
pub args_of : Command → List Bytes
args_of usage = []
args_of slot = ascii "slot" ∷ []
args_of (hash_account pubkey) = ascii "hash-account" ∷ pubkey ∷ []
args_of (verify_shred path leader) = ascii "verify-shred" ∷ path ∷ leader ∷ []
args_of (das_demo n) = ascii "das-demo" ∷ n ∷ []
args_of slot_demo = ascii "slot-demo" ∷ []
args_of (verify_slot mode) = ascii "verify-slot" ∷ mode ∷ []
args_of (rpc_attest pubkey wait_slots) = ascii "rpc-attest" ∷ pubkey ∷ wait_slots ∷ []
args_of (keygen none) = ascii "keygen" ∷ []
args_of (keygen (some path)) = ascii "keygen" ∷ path ∷ []
args_of (leaders start count) = ascii "leaders" ∷ start ∷ count ∷ []

-- A command line written as the usage text says is dispatched to its command with its arguments.
pub command_of-args_of : (name : Bytes) (c : Command) → command_of (name ∷ args_of c) ≡ c
unfolding command_of args_of str_eq
command_of-args_of name usage = refl
command_of-args_of name slot = refl
command_of-args_of name (hash_account pubkey) = refl
command_of-args_of name (verify_shred path leader) = refl
command_of-args_of name (das_demo n) = refl
command_of-args_of name slot_demo = refl
command_of-args_of name (verify_slot mode) = refl
command_of-args_of name (rpc_attest pubkey wait_slots) = refl
command_of-args_of name (keygen none) = refl
command_of-args_of name (keygen (some path)) = refl
command_of-args_of name (leaders start count) = refl
