-- ===== src/Lib.antt =====
-- Lattica: a light client for Solana's proposed accounts lattice hash and for its shreds. Blocks
-- arrive as shreds, packets of a forward-error-correction (FEC) set whose Merkle root the slot's
-- leader signs. A shred is parsed and checked against that root and signature; an attestation claims
-- by how much a slot changed the homomorphic hash of all accounts, and is checked against the
-- account transitions.
--
-- Parts, and the files that model them:
--   Prelude   tests, lists over native numbers, bits, little-endian bytes, and `Outcome`: Rust's
--             `Result` with a third case for a panic
--   LtHash    crates/lthash/src/lib.rs: `LtHash::{identity, mix_in, mix_out, checksum,
--             is_identity}`, `hash_account`, `SlotDelta::{new, mix}`. Group: the algebra of the
--             limbs. Encoding: the bytes that are hashed. Delta: what a slot's delta promises
--   Attest    crates/attest/src/lib.rs: `Attestation::{from_delta, delta_as_lthash}`,
--             `verify_slot_delta`. Verify: its verdicts and what acceptance gives
--   Shred     crates/shred/src/lib.rs and crates/shred/src/fec_set.rs. Variant: the variant byte
--             (`decode`, `encode`). Parse: `parse_shred`. Merkle: `merkle_leaf`,
--             `compute_merkle_root`, `build_tree`, `merkle_proof`. Verify: `verify_shred`. Erasure: the
--             erasure code. FecSet: `build_fec_set`, its loops as tables (Loops), the bytes that it
--             writes segment by segment (Layout, CodeLayout, Chunks, Build, Filled, Seal), and the set as a
--             whole (Fields, Results,
--             Accepted, RoundTrip, Payload)
--   Listener  crates/listener/src/lib.rs and crates/reedsol/src/lib.rs: the assembler. State: keys,
--             events, `FecState`, `SlotState` and the two maps of `FecAssembler`. Finalize:
--             `try_finalize_slot`, `aggregate_root`. Ingest: `FecAssembler::ingest`. Invariant: what
--             holds of a state and of a step. Run: `ingest` on any packet and over a sequence. Ingest/Complete,
--             Enough, After, Exactly, Fresh, Packets and Recovery: shreds of a set that `build_fec_set`
--             made. Ingest/Whole, Gather, Entry, TwoSets and Slot: a slot of two such
--             sets.
--             Leader: crates/listener/src/leader.rs, the cache of `HeliusLeaderResolver`
--             and `fetch_window` (Fetch). Udp:
--             crates/listener/src/udp.rs, the task, its channel and the consumer as a step relation
--             (Delivery, Drain, Slots). Main: crates/listener/src/main.rs
--   WasmVerify  crates/wasm-verify/src/lib.rs: `verifySlotDelta` over Attest. Refines: what a call that
--             returns `null` stands for
--   Liquidator  crates/liquidator/src. Markets: `Markets::{load, perp, spot}`, `scan_markets` of
--             markets.rs. Ix: `build_liquidate_perp_ix` of ix.rs with the ordered set of accounts.
--             RpcUrl: `env_rpc_url` and `redact_url` of paper.rs. Scanner: `scan_users` of scanner.rs.
--             Simulate: `pick_candidate_with_perp_position`, the instruction and `interpret` of
--             simulate.rs. Probes: what idl_dump.rs and disc_probe.rs read out of an answer
--   Cli       crates/cli/src/main.rs. Leaders: `cmd_leaders`, by the runs that are printed. Attest:
--             `cmd_verify_slot` and `cmd_rpc_attest`, by their exit codes. Demo: `cmd_das_demo` and
--             `cmd_slot_demo`, by their verdicts. VerifyShred: `cmd_verify_shred`. Snapshot: `fetch_snapshot` and
--             `cmd_hash_account`. EnvUrl: `env_url`. Dispatch: the commands of `main`
--   Tests     each theorem with hypotheses applied to concrete values
--
-- A byte string, an array and a slice are lists of native numbers; `IsByte` bounds the numbers
-- where a theorem needs it, and `IsLtHash`, `IsAccount`, `IsVariant` say what the Rust types
-- guarantee of a value. Integers that wrap are written with `% 2 ^ w`. Slices and indices out of
-- range are panics. Whether `u32` and `usize` subtraction panics or wraps depends on the build, so
-- `parse_shred` takes `overflow_checks` as its first argument.
--
-- Loops are structural recursion, except for `build_levels`: its fuel counts the rounds of the
-- `while` loop in `build_tree`, and the number of leaves is enough because a level has half the
-- nodes of the one below it.
--
-- The assembler is a value: `ingest` takes it and a packet and returns it with the events pushed. A
-- `HashMap` is a function from keys to options, a `BTreeSet` an ascending list. The fuel of
-- `reduce_layers` counts the rounds of `aggregate_root` as that of `build_levels` does. The reasons of
-- `Rejected` are kept as values, not as formatted text.
--
-- `build_fec_set` works on lists of 64 buffers; a write that is out of range, or of another length,
-- is a panic. Where it adds to a `u32`, and where the command line adds to a `u64`, a build with
-- overflow checks panics and one without wraps, so these take `overflow_checks` too. The polling loop of
-- `cmd_rpc_attest` reads a list of answers: a list that runs out is a command that still polls.
--
-- The resolver of an assembler is a function of the slot that does not change while it runs. That is a
-- static leader; `HeliusLeaderResolver`, whose answers change with its cache, is modelled on its own, so
-- the theorems on the assembler and the daemon do not cover a daemon that runs with it. Its sums of a
-- slot and a position wrap, as in a release build; a build with overflow checks panics there.
--
-- The daemon is a record of the assembler, the place where the task is, the channel with its 1024
-- places and the consumer's end. A step is one of the task or of the consumer, in any order; what the
-- socket delivers, at most the 2048 bytes of the buffer, is chosen by the environment.
--
-- Blake3, SHA-256, Ed25519, the erasure code, the arithmetic of `f64`, the leader of a slot, the answers
-- of an RPC node, program addresses, Base58, Base64, hexadecimal, JSON values and the decoders of
-- drift-rs's accounts are parameters.
-- Of Blake3 the theorems assume that its output has the length asked for and consists of bytes, of
-- SHA-256 that a digest has 32 bytes, of the erasure code that its failures are errors and not panics,
-- and for the sets of `build_fec_set` that the encoder fills parity shards of the length of its
-- shards, which are not empty, and that 32 of 64 shards recover a set. Of Ed25519
-- they assume nothing, but for `build_fec_set` that signatures of the key have 64 bytes and verify.
-- No theorem assumes that a hash has no collisions: where one would be needed, the theorem returns
-- the collision.
--
-- Not modelled: the sockets and the JSON-RPC calls themselves, what the programs print beyond what the
-- parts above name, the key generation on the command line, the
-- transactions that the liquidator simulates, its probe mode, and the serialisation of an attestation.
pub mod Prelude
pub mod LtHash
pub mod Attest
pub mod Shred
pub mod Listener
pub mod WasmVerify
pub mod Liquidator
pub mod Cli
pub mod Tests
