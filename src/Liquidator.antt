-- ===== src/Liquidator.antt =====
-- The liquidator of crates/liquidator.
--   Markets   the cache of markets
--   Ix        the `liquidate_perp` instruction
--   RpcUrl    the node's address, and how it is logged
--   Scanner   the filter of user accounts
--   Simulate  the choice of a user, the instruction for it, and the verdict on the program's logs
--   Probes    what the two probing modes read out of an answer
pub mod Markets
pub mod Ix
pub mod RpcUrl
pub mod Scanner
pub mod Simulate
pub mod Probes
