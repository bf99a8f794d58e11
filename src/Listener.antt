-- ===== src/Listener.antt =====
-- crates/listener/src/lib.rs: the assembler that groups verified shreds into FEC sets and slots; and
-- crates/listener/src/leader.rs, udp.rs and main.rs.
--   State      keys, events, the states of a FEC set and of a slot, the assembler's two maps
--   Finalize   `try_finalize_slot`, `aggregate_root`
--   Ingest     `FecAssembler::ingest`
--   Invariant  what holds of the states, the flags and the events
--   Run        `ingest` on any packet, and over a sequence of packets
--   Leader     the resolvers of a slot's leader
--   Udp        the task that feeds the assembler from a socket, and its channel
--   Main       the program around it
pub mod State
pub mod Finalize
pub mod Ingest
pub mod Invariant
pub mod Run
pub mod Leader
pub mod Udp
pub mod Main
