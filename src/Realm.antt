-- ===== src/Realm.antt =====
-- game/realm: the game server.
pub mod CharacterName
