-- ===== src/Service.antt =====
-- framework/service: what every service has.
pub mod Lifecycle
