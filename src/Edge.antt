-- ===== src/Edge.antt =====
-- framework/edge: the connections of an edge service.
pub mod Connections
