-- ===== src/Scene/Shard/Steps.antt =====
-- The operations of scene_shard.cpp: the order of the maps, and the events.
use realm_mesh.Prelude.{
  ℕ, ◌≡◌, refl, sym, ◌∙◌, ap, arith, Map, find, put, erase, erase_if, Bool-cases, ◌⊎◌, inl, inr,
  Option-cases, leb,
}
use realm_mesh.Scene.Shard.{
  Member, SceneShard, SceneRequest, Kind, View, SceneOperation, prepare, propose_move, confirm,
  activate, take_snapshot, remove, set_draining, other_operation, emit, views, view_of, join, move,
  leave, expire, leave_other, take_over, move_to, remove_active, erase_bound, handle_prepare,
  handle_activate, handle_propose_move, handle_confirm, handle_remove, dispatch, handle_live,
  handle, member_of, same_binding, found_and,
}
use realm_mesh.Scene.Shard.Keys.{
  IsTable, IsKeyed, IsTable-put, IsTable-erase, IsTable-erase_if, find-Keyed,
}
use realm_mesh.Scene.Shard.Replay.{
  apply_event, Tracks, Tracks-trans, views-put, emit-Tracks, leave-Tracks,
}
use realm_mesh.Scene.Shard.Cases.{
  Good, put-erase, same-Good, quiet-Tracks, member_of-key, prepare_cases, propose_move_cases,
  confirm_cases, activate_cases, remove_cases,
}

module _ (s : SceneShard) (key : IsKeyed s) (connection : ℕ) (r : SceneRequest) where
  handle_prepare-Good : (now : ℕ) → Good s (handle_prepare s connection r now).0
  handle_prepare-Good now = elim (prepare_cases s connection r now) [
    | inl e ↦ rw e (same-Good s key)
    | inr e ↦ rw e (
      record {
        active_table = key.active_table;
        prepared_table =
            IsTable-put r.route.character_id (member_of connection r now) s.prepared
              (member_of-key connection r now) key.prepared_table;
        candidate_table = key.candidate_table;
      },
      quiet-Tracks s
          (record s { prepared = put r.route.character_id (member_of connection r now) s.prepared })
          refl refl refl,
    )
  ]

  handle_propose_move-Good : (now : ℕ) → Good s (handle_propose_move s connection r now).0
  handle_propose_move-Good now = elim (propose_move_cases s connection r now) [
    | inl e ↦ rw e (same-Good s key)
    | inr e ↦ rw e (
      record {
        active_table = key.active_table;
        prepared_table = key.prepared_table;
        candidate_table =
            IsTable-put r.route.character_id (member_of connection r now) s.candidates
              (member_of-key connection r now) key.candidate_table;
      },
      quiet-Tracks s
          (record s {
            candidates = put r.route.character_id (member_of connection r now) s.candidates;
          })
          refl refl refl,
    )
  ]

  move_to-Good : (id : ℕ) (m : Member) → m.route.character_id ≡ id → Good s (move_to s id m)
  unfolding move_to apply_event emit
  move_to-Good id m e = (
    record {
      active_table = IsTable-put id m s.active e key.active_table;
      prepared_table = key.prepared_table;
      candidate_table = IsTable-erase id s.candidates key.candidate_table;
    },
    emit-Tracks s (record s { active = put id m s.active; candidates = erase id s.candidates }) move
        m refl refl
        (views-put id m s.active ∙ ap (λ j. put j (view_of m) (views s.active)) (sym e)),
  )

  -- The entry takes the place of one of another binding.
  replace-Tracks :
      (id : ℕ) (m old : Member)
      → m.route.character_id ≡ id
      → old.route.character_id ≡ id
      → (p c : Map Member)
      → Tracks s (
          emit
            (record (emit s leave old) { active = put id m s.active; prepared = p; candidates = c })
            join
            m)
  unfolding emit apply_event
  replace-Tracks id m old e f p c =
      Tracks-trans s (record (emit s leave old) { active = erase id s.active })
        (emit
          (record (emit s leave old) { active = put id m s.active; prepared = p; candidates = c })
          join m)
        (leave-Tracks s id old f)
        (emit-Tracks (record (emit s leave old) { active = erase id s.active })
          (record (emit s leave old) { active = put id m s.active; prepared = p; candidates = c })
          join m refl refl
          (ap views (sym (put-erase id 0 m s.active key.active_table.0))
            ∙ views-put id m (erase id s.active)
            ∙ ap (λ j. put j (view_of m) (views (erase id s.active))) (sym e)))

  put-Tracks :
      (id : ℕ) (m : Member) (k : Kind)
      → m.route.character_id ≡ id
      → ((v : View) (vs : Map View) → apply_event k id v vs ≡ put id v vs)
      → (p c : Map Member)
      → Tracks s (emit (record s { active = put id m s.active; prepared = p; candidates = c }) k m)
  put-Tracks id m k e same p c =
      emit-Tracks s (record s { active = put id m s.active; prepared = p; candidates = c }) k m refl
        refl
        (views-put id m s.active
          ∙ sym (same (view_of m) (views s.active))
          ∙ ap (λ j. apply_event k j (view_of m) (views s.active)) (sym e))

  take_over-Tracks :
      (m : Member)
      → m.route.character_id ≡ r.route.character_id
      → Tracks s (take_over s connection r m)
  unfolding take_over leave_other apply_event
  take_over-Tracks m e = elim (Option-cases (find r.route.character_id s.active)) [
    | inl free ↦ rw free (
        put-Tracks r.route.character_id m join e (λ v vs. refl)
          (erase r.route.character_id s.prepared) (erase r.route.character_id s.candidates))
    | inr (old, held) ↦ elim (Bool-cases (same_binding old connection r)) [
      | inl same ↦
          rw (held, same)
            (put-Tracks r.route.character_id m move e (λ v vs. refl)
              (erase r.route.character_id s.prepared) (erase r.route.character_id s.candidates))
      | inr other ↦
          rw (held, other)
            (replace-Tracks r.route.character_id m old e
              (find-Keyed r.route.character_id s.active old key.active_table.1 held)
              (erase r.route.character_id s.prepared) (erase r.route.character_id s.candidates))
    ]
  ]

  take_over-IsKeyed :
      (m : Member)
      → m.route.character_id ≡ r.route.character_id
      → IsKeyed (take_over s connection r m)
  unfolding take_over leave_other emit
  take_over-IsKeyed m e = elim (Option-cases (find r.route.character_id s.active)) [
    | inl free ↦ rw free (record {
      active_table = IsTable-put r.route.character_id m s.active e key.active_table;
      prepared_table = IsTable-erase r.route.character_id s.prepared key.prepared_table;
      candidate_table = IsTable-erase r.route.character_id s.candidates key.candidate_table;
    })
    | inr (old, held) ↦ elim (Bool-cases (same_binding old connection r)) [
      | inl same ↦
          rw (held, same)
            (record {
              active_table = IsTable-put r.route.character_id m s.active e key.active_table;
              prepared_table = IsTable-erase r.route.character_id s.prepared key.prepared_table;
              candidate_table = IsTable-erase r.route.character_id s.candidates key.candidate_table;
            })
      | inr other ↦
          rw (held, other)
            (record {
              active_table = IsTable-put r.route.character_id m s.active e key.active_table;
              prepared_table = IsTable-erase r.route.character_id s.prepared key.prepared_table;
              candidate_table = IsTable-erase r.route.character_id s.candidates key.candidate_table;
            })
    ]
  ]

  handle_activate-Good : Good s (handle_activate s connection r).0
  handle_activate-Good = elim (activate_cases s connection r) [
    | inl e ↦ rw e (same-Good s key)
    | inr (m, f, e) ↦
        let k = find-Keyed r.route.character_id s.prepared m key.prepared_table.1 f in
        rw e (take_over-IsKeyed m k, take_over-Tracks m k)
  ]

  handle_confirm-Good : Good s (handle_confirm s connection r).0
  handle_confirm-Good = elim (confirm_cases s connection r) [
    | inl e ↦ rw e (same-Good s key)
    | inr (m, f, e) ↦ rw e (
        move_to-Good r.route.character_id m
          (find-Keyed r.route.character_id s.candidates m key.candidate_table.1 f))
  ]

  remove_active-Good : Good s (remove_active s connection r)
  unfolding emit
  remove_active-Good = elim (remove_cases s connection r) [
    | inl e ↦ rw e (same-Good s key)
    | inr (m, held, e) ↦ rw e (
      record {
        active_table = IsTable-erase r.route.character_id s.active key.active_table;
        prepared_table = key.prepared_table;
        candidate_table = key.candidate_table;
      },
      leave-Tracks s r.route.character_id m
          (find-Keyed r.route.character_id s.active m key.active_table.1 held),
    )
  ]

  erase_bound-IsTable : (ms : Map Member) → IsTable ms → IsTable (erase_bound connection r ms)
  unfolding erase_bound
  erase_bound-IsTable ms h =
      elim (Bool-cases
        (found_and (find r.route.character_id ms) (λ x. same_binding x connection r))) [
          | inl bound ↦ rw bound (IsTable-erase r.route.character_id ms h)
          | inr other ↦ rw other h
        ]

-- The two maps without the active members may be replaced.
pub trim-Good :
    (s t : SceneShard) (p c : Map Member)
    → Good s t
    → IsTable p
    → IsTable c
    → Good s (record t { prepared = p; candidates = c })
trim-Good s t p c (k, h) hp hc =
    (record { active_table = k.active_table; prepared_table = hp; candidate_table = hc }, h)

handle_remove-Good :
    (s : SceneShard) (key : IsKeyed s) (connection : ℕ) (r : SceneRequest)
    → Good s (handle_remove s connection r).0
unfolding handle_remove
handle_remove-Good s key connection r =
    let g = remove_active-Good s key connection r in
    trim-Good s (remove_active s connection r)
      (erase_bound connection r (remove_active s connection r).prepared)
      (erase_bound connection r (remove_active s connection r).candidates) g
      (erase_bound-IsTable s key connection r (remove_active s connection r).prepared
        g.0.prepared_table)
      (erase_bound-IsTable s key connection r (remove_active s connection r).candidates
        g.0.candidate_table)

dispatch-Good :
    (o : SceneOperation) (s : SceneShard) (key : IsKeyed s) (connection : ℕ) (r : SceneRequest)
    (now : ℕ)
    → Good s (dispatch o s connection r now).0
unfolding dispatch
dispatch-Good prepare s key c r now = handle_prepare-Good s key c r now
dispatch-Good activate s key c r now = handle_activate-Good s key c r
dispatch-Good propose_move s key c r now = handle_propose_move-Good s key c r now
dispatch-Good confirm s key c r now = handle_confirm-Good s key c r
dispatch-Good remove s key c r now = handle_remove-Good s key c r
dispatch-Good take_snapshot s key c r now = same-Good s key
dispatch-Good set_draining s key c r now = same-Good s key
dispatch-Good other_operation s key c r now = same-Good s key

-- A request changes nothing, sets the flag, or is dispatched.
handle_live_cases :
    (s : SceneShard) (connection : ℕ) (r : SceneRequest) (now : ℕ)
    → ((handle_live s connection r now).0 ≡ s)
      ⊎ (((handle_live s connection r now).0 ≡ record s { draining = r.draining })
          ⊎ ((handle_live s connection r now).0 ≡ (dispatch r.operation s connection r now).0))
unfolding handle_live
handle_live_cases s connection r now = ground arith

handle_live-Good :
    (s : SceneShard) (key : IsKeyed s) (connection : ℕ) (r : SceneRequest) (now : ℕ)
    → Good s (handle_live s connection r now).0
handle_live-Good s key c r now = elim (handle_live_cases s c r now) [
  | inl e ↦ rw e (same-Good s key)
  | inr (inl e) ↦ rw e (
    record {
      active_table = key.active_table;
      prepared_table = key.prepared_table;
      candidate_table = key.candidate_table;
    },
    quiet-Tracks s (record s { draining = r.draining }) refl refl refl,
  )
  | inr (inr e) ↦ rw e (dispatch-Good r.operation s key c r now)
]

expire-Good : (s : SceneShard) (now : ℕ) → IsKeyed s → Good s (expire s now)
unfolding expire
expire-Good s now key =
    trim-Good s s (erase_if (λ m. leb m.deadline now) s.prepared)
      (erase_if (λ m. leb m.deadline now) s.candidates) (same-Good s key)
      (IsTable-erase_if (λ m. leb m.deadline now) s.prepared key.prepared_table)
      (IsTable-erase_if (λ m. leb m.deadline now) s.candidates key.candidate_table)

pub Good-trans : (s t u : SceneShard) → Good s t → Good t u → Good s u
Good-trans s t u (a, f) (b, g) = (b, Tracks-trans s t u f g)

-- Whatever the request, if each entry of the three maps stands under the character of its route and
-- the maps are in the order of their keys, this holds after `handle` too, and the events that it
-- appended take the members of a snapshot from before, from the event number of this snapshot on
-- and without a gap, to the members and the event number of a snapshot from after.
pub handle-Good :
    (s : SceneShard) (connection : ℕ) (request : SceneRequest) (now : ℕ)
    → IsKeyed s
    → IsKeyed (handle s connection request now).0 × Tracks s (handle s connection request now).0
unfolding handle
handle-Good s connection request now key =
    let g = expire-Good s now key in
    Good-trans s (expire s now) (handle_live (expire s now) connection request now).0 g
      (handle_live-Good (expire s now) g.0 connection request now)
