-- ===== src/Network.antt =====
-- framework/network: what the transports share.
pub mod Framing
pub mod Http
