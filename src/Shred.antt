-- ===== src/Shred.antt =====
-- crates/shred: the wire format of a shred, its verification, and the Merkle tree of a FEC set.
--   Variant   the variant byte, the kinds and the errors     (src/lib.rs)
--   Parse     `parse_shred`                                  (src/lib.rs)
--   Merkle    the Merkle tree of a FEC set and its proofs    (src/lib.rs, src/fec_set.rs)
--   Verify    `verify_shred`                                 (src/lib.rs)
pub mod Variant
pub mod Parse
pub mod Erasure
pub mod Merkle
pub mod Verify
pub mod FecSet
