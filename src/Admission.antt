-- ===== src/Admission.antt =====
-- The authority of one boot to take part in consensus: how long it lasts, how it is held, and how a
-- quorum grants it (src/runtime_permission.rs and below, src/raft/admission/controller.rs).
pub mod Duration
pub mod Timing
pub mod Permission
pub mod Record
pub mod Controller
pub mod Authority
pub mod Examples
