-- ===== src/Config.antt =====
-- The part of the configuration that names the virtual addresses (src/config.rs and
-- src/config/vip_validation.rs).
pub mod Vips
pub mod Examples
