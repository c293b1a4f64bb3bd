-- ===== src/Scene/Shard.antt =====
-- game/scene/src/scene_shard.cpp: the state machine of one shard. The messages of the two protocols
-- are records of the fields that the shard reads or writes; a message that a reply does not set is
-- `none`. Two messages serialize to the same text exactly if their fields are equal. A coordinate is
-- an integer, whose differences do not overflow. A time point is a count of nanoseconds.
pub mod Keys
pub mod Replay
pub mod Steps
pub mod Cases
pub mod Closing
mod Tests
use realm_mesh.Prelude.{
  ℕ, zero, suc, ◌+◌, ◌-◌, ◌*◌, ◌/◌, ◌%◌, ◌^◌, List, [], ◌∷◌, ◌++◌, map, Bool, true, false, ◌&&◌,
  ◌||◌, not, ltb, leb, ◌==◌, if◌then◌else◌, Option, none, some, Text, text_eq, length, add64,
  to_string, Map, find, contains, put, erase, erase_if, codes,
}
use realm_mesh.Prelude.Int.{ℤ, distance, eq_ℤ, is_between}

pub record Location : Type 0 where
  pub shard_id : ℕ
  pub x : ℤ
  pub y : ℤ

pub record Route : Type 0 where
  pub realm_id : ℕ
  pub character_id : ℕ
  pub binding_epoch : ℕ
  pub session_binding : ℕ
  pub shard_id : ℕ
  pub shard_version : ℕ

pub data SceneOperation : Type 0 where
  prepare propose_move confirm activate take_snapshot remove set_draining other_operation :
      SceneOperation

pub data Status : Type 0 where
  ok invalid stale_binding busy draining_status not_found : Status

pub record SceneRequest : Type 0 where
  pub realm_incarnation : Text
  pub scene_instance_id : Text
  pub scene_incarnation : Text
  pub operation : SceneOperation
  pub route : Route
  pub scene_seq : ℕ
  pub location : Location
  pub command_digest : Text
  pub shard_id : ℕ
  pub draining : Bool
  pub shard_version : ℕ

-- scene::v1::Member
pub record View : Type 0 where
  pub binding_epoch : ℕ
  pub location : Location

-- The members with their character identifiers, in the order of these.
pub record Snapshot : Type 0 where
  pub shard_id : ℕ
  pub shard_incarnation : Text
  pub event_seq : ℕ
  pub members : Map View

pub record SceneReply : Type 0 where
  pub realm_incarnation : Text
  pub scene_instance_id : Text
  pub scene_incarnation : Text
  pub operation : SceneOperation
  pub status : Status
  pub route : Option Route
  pub scene_seq : ℕ
  pub location : Option Location
  pub snapshot : Option Snapshot
  pub draining : Bool
  pub active_members : ℕ

pub data Kind : Type 0 where
  join move leave : Kind

pub record SceneEvent : Type 0 where
  pub shard_id : ℕ
  pub shard_incarnation : Text
  pub event_seq : ℕ
  pub kind : Kind
  pub character_id : ℕ
  pub view : View

pub record Member : Type 0 where
  pub connection : ℕ
  pub realm_incarnation : Text
  pub route : Route
  pub seq : ℕ
  pub digest : Text
  pub location : Location
  pub deadline : ℕ

pub record SceneShard : Type 0 where
  pub instance_id : Text
  pub incarnation : Text
  pub shard_id : ℕ
  pub shard_version : ℕ
  pub event_incarnation : Text
  pub draining : Bool
  pub event_seq : ℕ
  pub active : Map Member
  pub prepared : Map Member
  pub candidates : Map Member
  pub events : List SceneEvent

abbrev pub same_location : Location → Location → Bool
same_location a b = a.shard_id == b.shard_id && eq_ℤ a.x b.x && eq_ℤ a.y b.y

abbrev pub same_route : Route → Route → Bool
same_route a b =
    a.realm_id == b.realm_id
    && a.character_id == b.character_id
    && a.binding_epoch == b.binding_epoch
    && a.session_binding == b.session_binding
    && a.shard_id == b.shard_id
    && a.shard_version == b.shard_version

pub construct : Text → Text → ℕ → ℕ → SceneShard
construct instance_id incarnation shard_id shard_version = record {
  instance_id = instance_id;
  incarnation = incarnation;
  shard_id = shard_id;
  shard_version = shard_version;
  event_incarnation =
      incarnation ++ (if shard_version == 0 then [] else 58 ∷ to_string shard_version);
  draining = false;
  event_seq = 0;
  active = [];
  prepared = [];
  candidates = [];
  events = [];
}

pub same_binding : Member → ℕ → SceneRequest → Bool
same_binding member connection request =
    member.connection == connection
    && text_eq member.realm_incarnation request.realm_incarnation
    && same_route member.route request.route

abbrev pub view_of : Member → View
view_of m = record { binding_epoch = m.route.binding_epoch; location = m.location }

pub views : Map Member → Map View
views [] = []
views ((k, m) ∷ ms) = (k, view_of m) ∷ views ms

pub snapshot : SceneShard → Snapshot
unfolding views
snapshot s = record {
  shard_id = s.shard_id;
  shard_incarnation = s.event_incarnation;
  event_seq = s.event_seq;
  members = views s.active;
}

pub emit : SceneShard → Kind → Member → SceneShard
emit s kind member = record s {
  event_seq = add64 s.event_seq 1;
  events =
      s.events
      ++ record {
        shard_id = s.shard_id;
        shard_incarnation = s.event_incarnation;
        event_seq = add64 s.event_seq 1;
        kind = kind;
        character_id = member.route.character_id;
        view = view_of member;
      }
        ∷ [];
}

pub expire : SceneShard → ℕ → SceneShard
expire s now = record s {
  prepared = erase_if (λ m. leb m.deadline now) s.prepared;
  candidates = erase_if (λ m. leb m.deadline now) s.candidates;
}

-- `receipt_matches`
pub receipt_matches : ℕ → SceneRequest → Member → Bool
unfolding same_binding
receipt_matches connection request member =
    same_binding member connection request
    && member.seq == request.scene_seq
    && text_eq member.digest request.command_digest

-- A test on an entry that may be missing.
abbrev pub found_and : Option Member → (Member → Bool) → Bool
found_and none test = false
found_and (some m) test = test m

abbrev pub same_receipt : ℕ → SceneRequest → Member → Bool
same_receipt connection request m =
    receipt_matches connection request m && same_location m.location request.location

-- The member that a request describes, with the time that it has to come to be confirmed.
pub member_of : ℕ → SceneRequest → ℕ → Member
member_of connection request now = record {
  connection = connection;
  realm_incarnation = request.realm_incarnation;
  route = request.route;
  seq = request.scene_seq;
  digest = request.command_digest;
  location = request.location;
  deadline = now + 3_000_000_000;
}

-- The reply before the operation is looked at.
abbrev pub stale_reply : SceneShard → SceneRequest → SceneReply
stale_reply s request = record {
  realm_incarnation = request.realm_incarnation;
  scene_instance_id = s.instance_id;
  scene_incarnation = s.incarnation;
  operation = request.operation;
  status = stale_binding;
  route = none;
  scene_seq = 0;
  location = none;
  snapshot = none;
  draining = false;
  active_members = 0;
}

abbrev pub refuse : SceneShard → SceneRequest → Status → SceneReply
refuse s request status = record (stale_reply s request) { status = status }

abbrev pub ok_route : SceneShard → SceneRequest → SceneReply
ok_route s request = record (stale_reply s request) { status = ok; route = some request.route }

abbrev pub ok_position : SceneShard → SceneRequest → SceneReply
ok_position s request = record (ok_route s request) {
  scene_seq = request.scene_seq;
  location = some request.location;
}

abbrev pub ok_snapshot : SceneShard → SceneRequest → SceneReply
ok_snapshot s request = record (ok_route s request) {
  scene_seq = request.scene_seq;
  snapshot = some (snapshot s);
}

-- The prepared members that are not active.
pub waiting : Map Member → Map Member → ℕ
waiting active [] = 0
waiting active ((k, m) ∷ prepared) = (if contains k active then 0 else 1) + waiting active prepared

abbrev pub occupied : SceneShard → ℕ
occupied s = length s.active + waiting s.active s.prepared

pub handle_prepare : SceneShard → ℕ → SceneRequest → ℕ → SceneShard × SceneReply
unfolding same_binding member_of waiting
handle_prepare s connection request now =
    let id = request.route.character_id in
    let active = find id s.active in
    let prepared = find id s.prepared in
    if found_and active (same_receipt connection request)
      || found_and prepared (same_receipt connection request)
    then (s, ok_position s request)
    else if found_and active (λ m.
      not (same_binding m connection request && ltb m.seq request.scene_seq)
      && leb request.route.binding_epoch m.route.binding_epoch)
        || found_and prepared (λ m. leb request.route.binding_epoch m.route.binding_epoch)
    then (s, refuse s request stale_binding)
    else if s.draining
    then (s, refuse s request draining_status)
    else if leb 16 (occupied s) && not (contains id s.active) && not (contains id s.prepared)
    then (s, refuse s request busy)
    else (
      record s { prepared = put id (member_of connection request now) s.prepared },
      ok_position s request,
    )

-- Another binding of the character leaves first.
pub leave_other : SceneShard → Option Member → Bool → SceneShard
unfolding emit
leave_other s none same = s
leave_other s (some m) same = if same then s else emit s leave m

-- `prepared` is the entry that the activation takes over.
pub take_over : SceneShard → ℕ → SceneRequest → Member → SceneShard
unfolding same_binding emit leave_other
take_over s connection request prepared =
    let id = request.route.character_id in
    let same = found_and (find id s.active) (λ m. same_binding m connection request) in
    let left = leave_other s (find id s.active) same in
    emit
      (record left {
        active = put id prepared left.active;
        prepared = erase id left.prepared;
        candidates = erase id left.candidates;
      })
      (if same then move else join) prepared

pub handle_activate : SceneShard → ℕ → SceneRequest → SceneShard × SceneReply
unfolding receipt_matches take_over
handle_activate s connection request =
    if found_and (find request.route.character_id s.active) (receipt_matches connection request)
    then (s, ok_snapshot s request)
    else elim (find request.route.character_id s.prepared) [
      | none ↦ (s, refuse s request stale_binding)
      | some m ↦
          if receipt_matches connection request m
          then (
            take_over s connection request m,
            ok_snapshot (take_over s connection request m) request,
          )
          else (s, refuse s request stale_binding)
    ]

-- The sum of the two distances is at most 100, and both coordinates lie in 0 .. 10000.
abbrev pub is_step : Location → Location → Bool
is_step to from =
    leb (distance to.x from.x + distance to.y from.y) 100
    && is_between 0 10000 to.x
    && is_between 0 10000 to.y

pub handle_propose_move : SceneShard → ℕ → SceneRequest → ℕ → SceneShard × SceneReply
unfolding same_binding receipt_matches member_of
handle_propose_move s connection request now =
    let id = request.route.character_id in
    elim (find id s.active) [
      | none ↦ (s, refuse s request stale_binding)
      | some member ↦
          if not (same_binding member connection request)
          then (s, refuse s request stale_binding)
          else if not (request.scene_seq == add64 member.seq 1)
          then (s, refuse s request invalid)
          else if not (is_step request.location member.location)
          then (s, refuse s request invalid)
          else if found_and (find id s.candidates) (λ m. not (same_receipt connection request m))
          then (s, refuse s request busy)
          else (
            record s { candidates = put id (member_of connection request now) s.candidates },
            ok_position s request,
          )
    ]

-- The candidate becomes the member.
pub move_to : SceneShard → ℕ → Member → SceneShard
unfolding emit
move_to s id candidate =
    emit (record s { active = put id candidate s.active; candidates = erase id s.candidates }) move
      candidate

pub handle_confirm : SceneShard → ℕ → SceneRequest → SceneShard × SceneReply
unfolding receipt_matches move_to
handle_confirm s connection request =
    let id = request.route.character_id in
    if found_and (find id s.active) (same_receipt connection request)
    then (s, ok_position s request)
    else elim (find id s.candidates) [
      | none ↦ (s, refuse s request stale_binding)
      | some m ↦
          if same_receipt connection request m
          then (move_to s id m, ok_position s request)
          else (s, refuse s request stale_binding)
    ]

-- The active entry leaves, if it is of the same binding.
pub remove_active : SceneShard → ℕ → SceneRequest → SceneShard
unfolding same_binding emit
remove_active s connection request = elim (find request.route.character_id s.active) [
  | none ↦ s
  | some m ↦
      if same_binding m connection request
      then record (emit s leave m) { active = erase request.route.character_id s.active }
      else s
]

erase_bound : ℕ → SceneRequest → Map Member → Map Member
unfolding same_binding
erase_bound connection request m =
    if found_and (find request.route.character_id m) (λ x. same_binding x connection request)
    then erase request.route.character_id m
    else m

pub handle_remove : SceneShard → ℕ → SceneRequest → SceneShard × SceneReply
unfolding remove_active erase_bound
handle_remove s connection request =
    let t = remove_active s connection request in
    (
      record t {
        prepared = erase_bound connection request t.prepared;
        candidates = erase_bound connection request t.candidates;
      },
      ok_route s request,
    )

-- The switch on the operation, the route being one of this shard.
pub dispatch : SceneOperation → SceneShard → ℕ → SceneRequest → ℕ → SceneShard × SceneReply
unfolding handle_prepare handle_activate handle_propose_move handle_confirm handle_remove
dispatch prepare s connection request now = handle_prepare s connection request now
dispatch activate s connection request now = handle_activate s connection request
dispatch propose_move s connection request now = handle_propose_move s connection request now
dispatch confirm s connection request now = handle_confirm s connection request
dispatch remove s connection request now = handle_remove s connection request
dispatch take_snapshot s connection request now = (s, refuse s request invalid)
dispatch set_draining s connection request now = (s, refuse s request invalid)
dispatch other_operation s connection request now = (s, refuse s request invalid)

abbrev is_snapshot : SceneOperation → Bool
is_snapshot take_snapshot = true
is_snapshot o = false

abbrev is_set_draining : SceneOperation → Bool
is_set_draining set_draining = true
is_set_draining o = false

-- `handle` after `expire`.
pub handle_live : SceneShard → ℕ → SceneRequest → ℕ → SceneShard × SceneReply
unfolding dispatch snapshot
handle_live s connection request now =
    let bootstrap =
      is_snapshot request.operation && text_eq request.scene_incarnation (codes "discover") in
    if not (text_eq request.scene_instance_id s.instance_id)
      || (not bootstrap && not (text_eq request.scene_incarnation s.incarnation))
    then (s, refuse s request stale_binding)
    else if is_snapshot request.operation
    then (if not (request.shard_id == s.shard_id) || not (request.shard_version == s.shard_version)
        then (s, refuse s request not_found)
        else (s, record (refuse s request ok) { snapshot = some (snapshot s) }))
    else if is_set_draining request.operation
    then (
      record s { draining = request.draining },
      record (refuse s request ok) {
        draining = request.draining;
        active_members = length s.active % 2 ^ 32;
      },
    )
    else if not (request.route.realm_id == 1)
        || not (request.route.shard_id == s.shard_id)
        || not (request.route.shard_version == s.shard_version)
    then (s, refuse s request not_found)
    else dispatch request.operation s connection request now

pub handle : SceneShard → ℕ → SceneRequest → ℕ → SceneShard × SceneReply
unfolding expire handle_live
handle s connection request now = handle_live (expire s now) connection request now

-- The loop of `closed` over the active members that it has not reached; the state holds the others.
pub close_active : ℕ → Map Member → SceneShard → SceneShard
unfolding emit
close_active connection [] s = s
close_active connection ((k, m) ∷ rest) s = close_active connection rest (
    if m.connection == connection
    then record (emit s leave m) { active = erase k s.active; candidates = erase k s.candidates }
    else s)

pub closed : SceneShard → ℕ → SceneShard
unfolding close_active
closed s connection =
    let t = close_active connection s.active s in
    record t {
      prepared = erase_if (λ m. m.connection == connection) t.prepared;
      candidates = erase_if (λ m. m.connection == connection) t.candidates;
    }

pub drain_events : SceneShard → SceneShard × List SceneEvent
drain_events s = (record s { events = [] }, s.events)

pub begin_draining : SceneShard → SceneShard
begin_draining s = record s { draining = true }
