-- ===== src/VipLogic.antt =====
-- src/raft/store/vip_logic.rs: eligibility, assignment and the fenced reconciliation.
pub mod Eligibility
pub mod Assign
pub mod Reconcile
pub mod Examples
