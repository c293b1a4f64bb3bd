-- ===== src/Gateway.antt =====
-- game/gateway: admission of a login at the edge, and the single use of its credentials.
pub mod Consumption
pub mod Admission
pub mod Pipeline
