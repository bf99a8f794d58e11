-- ===== src/Cli.antt =====
-- The command line of crates/cli/src/main.rs.
pub mod Leaders
pub mod Attest
pub mod Demo
pub mod VerifyShred
pub mod Dispatch
pub mod EnvUrl
pub mod Snapshot
