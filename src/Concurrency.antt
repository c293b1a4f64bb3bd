-- ===== src/Concurrency.antt =====
-- framework/concurrency: what threads share.
pub mod BoundedQueue
