-- ===== src/Store.antt =====
-- The Raft store of src/raft/store/: the shared state, the state machine and the log.
pub mod OpenRaft
pub mod State
pub mod Snapshot
pub mod Membership
pub mod Machine
pub mod Recompute
pub mod Apply
pub mod Local
pub mod Log
pub mod Install
pub mod Examples
