-- ===== src/Scene/Shard/Tests.antt =====
-- Requests to a shard, and its theorems at concrete inputs.
use realm_mesh.Prelude.{find, erase_if, text_eq, ℕ, ◌≡◌, refl, [], ◌∷◌, false, arith}
use realm_mesh.Prelude.Int.{pos}
use realm_mesh.Scene.Shard.{
  Location, Route, ok, invalid, SceneOperation, propose_move, activate, SceneRequest, Member,
  SceneShard, construct, handle, closed,
}
use realm_mesh.Scene.Shard.Keys.{IsKeyed}
use realm_mesh.Scene.Shard.Replay.{Tracks}
use realm_mesh.Scene.Shard.Steps.{handle-Good}
use realm_mesh.Scene.Shard.Closing.{closed-Good}

abbrev at : ℕ → Location
at x = record { shard_id = 2; x = pos x; y = pos 20 }

abbrev route_of : ℕ → Route
route_of epoch = record {
  realm_id = 1;
  character_id = 7;
  binding_epoch = epoch;
  session_binding = 4;
  shard_id = 2;
  shard_version = 0;
}

abbrev request : SceneOperation → ℕ → ℕ → ℕ → SceneRequest
request operation epoch seq x = record {
  realm_incarnation = 114 ∷ [];
  scene_instance_id = 105 ∷ [];
  scene_incarnation = 110 ∷ [];
  operation = operation;
  route = route_of epoch;
  scene_seq = seq;
  location = at x;
  command_digest = 100 ∷ [];
  shard_id = 2;
  draining = false;
  shard_version = 0;
}

abbrev member : ℕ → ℕ → ℕ → Member
member connection epoch seq = record {
  connection = connection;
  realm_incarnation = 114 ∷ [];
  route = route_of epoch;
  seq = seq;
  digest = 100 ∷ [];
  location = at 10;
  deadline = 3_000_000_005;
}

-- The character stands in the shard, and another login of it is prepared.
abbrev shard : SceneShard
shard = record (construct (105 ∷ []) (110 ∷ []) 2 0) {
  event_incarnation = 110 ∷ [];
  event_seq = 8;
  active = (7, member 1 3 1) ∷ [];
  prepared = (7, member 2 4 1) ∷ [];
}

shard-IsKeyed : IsKeyed shard
unfolding construct
shard-IsKeyed = record {
  active_table = ((omega arith, tt), (refl, tt));
  prepared_table = ((omega arith, tt), (refl, tt));
  candidate_table = (tt, tt);
}

-- The login that is prepared takes the place of the other, which leaves first.
take_over_run : (handle shard 2 (request activate 4 1 10) 5).0.event_seq ≡ 10
unfolding handle construct text_eq find erase_if
take_over_run = refl

-- A member moves, a step at a time.
propose_run : (handle shard 1 (request propose_move 3 2 15) 5).1.status ≡ ok
unfolding handle construct text_eq find erase_if
propose_run = refl

far_run : (handle shard 1 (request propose_move 3 2 200) 5).1.status ≡ invalid
unfolding handle construct text_eq find erase_if
far_run = refl

handle-Good_example :
    IsKeyed (handle shard 2 (request activate 4 1 10) 5).0
    × Tracks shard (handle shard 2 (request activate 4 1 10) 5).0
handle-Good_example = handle-Good shard 2 (request activate 4 1 10) 5 shard-IsKeyed

closed-Good_example : IsKeyed (closed shard 1) × Tracks shard (closed shard 1)
closed-Good_example = closed-Good shard 1 shard-IsKeyed
