-- ===== src/Scene/Shard/Closing.antt =====
-- `closed` of scene_shard.cpp.
use realm_mesh.Prelude.{
  ℕ, ◌≡◌, refl, [], ◌∷◌, true, false, ◌==◌, Map, erase, erase_if, Bool-cases, inl, inr,
}
use realm_mesh.Scene.Shard.{Member, SceneShard, emit, leave, close_active, closed}
use realm_mesh.Scene.Shard.Keys.{IsKeyed, Keyed, IsTable-erase, IsTable-erase_if}
use realm_mesh.Scene.Shard.Replay.{Tracks, leave-Tracks}
use realm_mesh.Scene.Shard.Cases.{Good, same-Good}
use realm_mesh.Scene.Shard.Steps.{trim-Good, Good-trans}

-- One turn of the loop.
drop : SceneShard → ℕ → Member → SceneShard
unfolding emit
drop s k m = record (emit s leave m) {
  active = erase k s.active;
  candidates = erase k s.candidates;
}

drop-Good :
    (s : SceneShard) (k : ℕ) (m : Member)
    → IsKeyed s
    → m.route.character_id ≡ k
    → Good s (drop s k m)
unfolding drop emit
drop-Good s k m key e = (
  record {
    active_table = IsTable-erase k s.active key.active_table;
    prepared_table = key.prepared_table;
    candidate_table = IsTable-erase k s.candidates key.candidate_table;
  },
  leave-Tracks s k m e,
)

close_active-drop :
    (connection k : ℕ) (m : Member) (rest : Map Member) (s : SceneShard)
    → (m.connection == connection) ≡ true
    → close_active connection ((k, m) ∷ rest) s ≡ close_active connection rest (drop s k m)
unfolding close_active drop
close_active-drop connection k m rest s e = rw e refl

close_active-keep :
    (connection k : ℕ) (m : Member) (rest : Map Member) (s : SceneShard)
    → (m.connection == connection) ≡ false
    → close_active connection ((k, m) ∷ rest) s ≡ close_active connection rest s
unfolding close_active
close_active-keep connection k m rest s e = rw e refl

close_active-Good :
    (connection : ℕ) (rest : Map Member) (s : SceneShard)
    → Keyed rest
    → IsKeyed s
    → Good s (close_active connection rest s)
unfolding close_active
close_active-Good connection [] s h key = same-Good s key
close_active-Good connection ((k, m) ∷ rest) s (h, hs) key =
    elim (Bool-cases (m.connection == connection)) [
      | inl mine ↦
          let g = drop-Good s k m key h in
          rw (close_active-drop connection k m rest s mine) (
            Good-trans s (drop s k m) (close_active connection rest (drop s k m)) g
              (close_active-Good connection rest (drop s k m) hs g.0))
      | inr other ↦
          rw (close_active-keep connection k m rest s other)
            (close_active-Good connection rest s hs key)
    ]

-- If each entry of the three maps stands under the character of its route and the maps are in the
-- order of their keys, this holds after `closed` too, and the events that it appended take the
-- members of a snapshot from before, from the event number of this snapshot on and without a gap, to
-- the members and the event number of a snapshot from after.
pub closed-Good :
    (s : SceneShard) (connection : ℕ)
    → IsKeyed s
    → IsKeyed (closed s connection) × Tracks s (closed s connection)
unfolding closed
closed-Good s connection key =
    let t = close_active connection s.active s in
    let g = close_active-Good connection s.active s key.active_table.1 key in
    trim-Good s t (erase_if (λ m. m.connection == connection) t.prepared)
      (erase_if (λ m. m.connection == connection) t.candidates) g
      (IsTable-erase_if (λ m. m.connection == connection) t.prepared g.0.prepared_table)
      (IsTable-erase_if (λ m. m.connection == connection) t.candidates g.0.candidate_table)
