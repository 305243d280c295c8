-- ===== src/Reconciler.antt =====
-- The local decisions of the VIP reconciler (src/vip/).
pub mod Takeover
pub mod Intent
pub mod Exclusive
pub mod Examples
