-- ===== src/Scene.antt =====
-- game/scene: the state of the scene shards.
pub mod Shard
