-- ===== src/Tests.antt =====
-- Each theorem with hypotheses, applied to concrete values.
--   Fixtures   toy instances of the third-party functions, accounts, shreds
mod Fixtures
mod LtHash
mod Attest
mod Shred
mod Listener
mod Leader
mod FecSet
mod WasmVerify
mod Liquidator
mod Cli
mod Udp
mod Demo
