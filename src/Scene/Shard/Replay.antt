-- ===== src/Scene/Shard/Replay.antt =====
-- The events of a shard against its snapshots: what a client sees that replays them.
use realm_mesh.Prelude.{
  ℕ, ◌≡◌, refl, sym, ◌∙◌, ap, List, [], ◌∷◌, ◌++◌, if◌then◌else◌, ◌==◌, arith, Option, none, some,
  Map, put, erase, add64,
}
use mathlib.Core.List.{append_assoc, append-nil}
use realm_mesh.Scene.Shard.{
  Member, SceneShard, SceneEvent, View, Kind, join, move, leave, emit, views, view_of,
}

-- A client applies an event to its copy of the members.
unfoldable pub apply_event : Kind → ℕ → View → Map View → Map View
apply_event join id v m = put id v m
apply_event move id v m = put id v m
apply_event leave id v m = erase id m

-- It takes the events in the order of their numbers, and no other.
pub replay : ℕ → Map View → List SceneEvent → Option (ℕ × Map View)
unfolding apply_event
replay n m [] = some (n, m)
replay n m (e ∷ es) =
    let rest = replay e.event_seq (apply_event e.kind e.character_id e.view m) es in
    if e.event_seq == add64 n 1 then rest else none

pub replay-append :
    (n : ℕ) (m : Map View) (es fs : List SceneEvent) (k : ℕ) (v : Map View)
    → replay n m es ≡ some (k, v)
    → replay n m (es ++ fs) ≡ replay k v fs
unfolding replay
replay-append n m [] fs k v e = cc
replay-append n m (x ∷ es) fs k v e =
    ground (arith, replay-append x.event_seq (apply_event x.kind x.character_id x.view m) es fs k v)

-- From `s` to `t` the shard has appended events that take the members of a snapshot of `s`, from its
-- event number on, to the members and the event number of a snapshot of `t`.
abbrev pub Tracks : SceneShard → SceneShard → Type 0
Tracks s t =
    (es : List SceneEvent) × (t.events ≡ s.events ++ es)
    × (replay s.event_seq (views s.active) es ≡ some (t.event_seq, views t.active))

pub Tracks-refl : (s : SceneShard) → Tracks s s
unfolding replay
Tracks-refl s = ([], sym (append-nil s.events), refl)

pub Tracks-trans : (s t u : SceneShard) → Tracks s t → Tracks t u → Tracks s u
Tracks-trans s t u (es, e, f) (fs, g, h) = (
  es ++ fs,
  g ∙ ap (λ l. l ++ fs) e ∙ append_assoc s.events es fs,
  replay-append s.event_seq (views s.active) es fs t.event_seq (views t.active) f ∙ h,
)

pub views-put :
    (k : ℕ) (v : Member) (ms : Map Member) → views (put k v ms) ≡ put k (view_of v) (views ms)
unfolding views put
views-put k v [] = refl
views-put k v ((j, m) ∷ ms) = ground (arith, views-put k v ms)

pub views-erase : (k : ℕ) (ms : Map Member) → views (erase k ms) ≡ erase k (views ms)
unfolding views erase
views-erase k [] = refl
views-erase k ((j, m) ∷ ms) = ground (arith, views-erase k ms)

abbrev event_of : SceneShard → Kind → Member → SceneEvent
event_of t k m = record {
  shard_id = t.shard_id;
  shard_incarnation = t.event_incarnation;
  event_seq = add64 t.event_seq 1;
  kind = k;
  character_id = m.route.character_id;
  view = view_of m;
}

-- One event, that says what became of the entry.
pub emit-Tracks :
    (s t : SceneShard) (k : Kind) (m : Member)
    → t.events ≡ s.events
    → t.event_seq ≡ s.event_seq
    → views t.active ≡ apply_event k m.route.character_id (view_of m) (views s.active)
    → Tracks s (emit t k m)
unfolding emit replay
emit-Tracks s t k m a b d =
    (event_of t k m ∷ [], ap (λ l. l ++ event_of t k m ∷ []) a, ground (arith, d, b))

pub leave-Tracks :
    (s : SceneShard) (id : ℕ) (m : Member)
    → m.route.character_id ≡ id
    → Tracks s (record (emit s leave m) { active = erase id s.active })
unfolding emit apply_event
leave-Tracks s id m e =
    emit-Tracks s (record s { active = erase id s.active }) leave m refl refl
      (views-erase id s.active ∙ ap (λ j. erase j (views s.active)) (sym e))
