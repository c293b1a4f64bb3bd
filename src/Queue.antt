-- ===== src/Queue.antt =====
-- game/queue: the admission queue of the login chain, `src/queue_core.cpp` and
-- `src/queue_ticketing.cpp`.
pub mod Core
pub mod Ticketing
