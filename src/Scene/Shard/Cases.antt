-- ===== src/Scene/Shard/Cases.antt =====
-- The shapes that the state of a shard can have after an operation.
use realm_mesh.Prelude.{
  ℕ, suc, ◌<◌, ◌≡◌, refl, ◌∙◌, [], ◌∷◌, arith, some, Map, find, put, erase, Ordered, Bool-cases,
  ◌⊎◌, inl, inr, Option-cases,
}
use realm_mesh.Scene.Shard.{
  Member, SceneShard, SceneRequest, emit, leave, take_over, move_to, remove_active, handle_prepare,
  handle_activate, handle_propose_move, handle_confirm, member_of, same_binding, receipt_matches,
  found_and, same_receipt,
}
use realm_mesh.Scene.Shard.Keys.{IsKeyed}
use realm_mesh.Scene.Shard.Replay.{Tracks, Tracks-refl}

module _ {V : Type 0} where
  pub put_front : (k low : ℕ) (v : V) (m : Map V) → Ordered low m → k < low → put k v m ≡ (k, v) ∷ m
  unfolding put
  put_front k low v [] o h = refl
  put_front k low v ((j, w) ∷ m) (l, o) h = ground arith

  pub erase_below : (k low : ℕ) (m : Map V) → Ordered low m → k < low → erase k m ≡ m
  unfolding erase
  erase_below k low [] o h = refl
  erase_below k low ((j, w) ∷ m) (l, o) h = ground (arith, erase_below k (suc j) m o)

  pub put-erase : (k low : ℕ) (v : V) (m : Map V) → Ordered low m → put k v (erase k m) ≡ put k v m
  unfolding put erase
  put-erase k low v [] o = refl
  put-erase k low v ((j, w) ∷ m) (l, o) =
      ground
        (arith, put-erase k (suc j) v m o, put_front k (suc j) v m o, erase_below k (suc j) m o)

-- What every step does.
abbrev pub Good : SceneShard → SceneShard → Type 0
Good s t = IsKeyed t × Tracks s t

pub same-Good : (s : SceneShard) → IsKeyed s → Good s s
same-Good s k = (k, Tracks-refl s)

-- A step that does not touch the active members.
pub quiet-Tracks :
    (s t : SceneShard)
    → t.events ≡ s.events
    → t.event_seq ≡ s.event_seq
    → t.active ≡ s.active
    → Tracks s t
quiet-Tracks s t a b c = let (es, e, f) = Tracks-refl s in (es, a ∙ e, rw (b, c) f)

pub member_of-key :
    (connection : ℕ) (r : SceneRequest) (now : ℕ)
    → (member_of connection r now).route.character_id ≡ r.route.character_id
unfolding member_of
member_of-key connection r now = refl

module _ (s : SceneShard) (connection : ℕ) (r : SceneRequest) where
  pub prepare_cases :
      (now : ℕ)
      → ((handle_prepare s connection r now).0 ≡ s)
        ⊎ ((handle_prepare s connection r now).0 ≡ record s {
          prepared = put r.route.character_id (member_of connection r now) s.prepared;
        })
  unfolding handle_prepare
  prepare_cases now = ground arith

  pub propose_move_cases :
      (now : ℕ)
      → ((handle_propose_move s connection r now).0 ≡ s)
        ⊎ ((handle_propose_move s connection r now).0 ≡ record s {
          candidates = put r.route.character_id (member_of connection r now) s.candidates;
        })
  unfolding handle_propose_move
  propose_move_cases now = ground arith

  pub confirm_cases :
      ((handle_confirm s connection r).0 ≡ s)
      ⊎ ((m : Member) × (find r.route.character_id s.candidates ≡ some m)
          × ((handle_confirm s connection r).0 ≡ move_to s r.route.character_id m))
  unfolding handle_confirm
  confirm_cases = elim (Option-cases (find r.route.character_id s.candidates)) [
    | inl none_found ↦ inl (ground arith)
    | inr (m, e) ↦
        elim (Bool-cases
          (found_and (find r.route.character_id s.active) (same_receipt connection r))) [
            | inl done ↦ inl (ground arith)
            | inr new ↦ elim (Bool-cases (same_receipt connection r m)) [
              | inl same ↦ inr (m, e, ground arith)
              | inr other ↦ inl (ground arith)
            ]
          ]
  ]

  pub activate_cases :
      ((handle_activate s connection r).0 ≡ s)
      ⊎ ((m : Member) × (find r.route.character_id s.prepared ≡ some m)
          × ((handle_activate s connection r).0 ≡ take_over s connection r m))
  unfolding handle_activate
  activate_cases = elim (Option-cases (find r.route.character_id s.prepared)) [
    | inl none_found ↦ inl (ground arith)
    | inr (m, e) ↦
        elim (Bool-cases
          (found_and (find r.route.character_id s.active) (receipt_matches connection r))) [
            | inl done ↦ inl (ground arith)
            | inr new ↦ elim (Bool-cases (receipt_matches connection r m)) [
              | inl same ↦ inr (m, e, ground arith)
              | inr other ↦ inl (ground arith)
            ]
          ]
  ]

  pub remove_cases :
      (remove_active s connection r ≡ s)
      ⊎ ((m : Member) × (find r.route.character_id s.active ≡ some m)
          × (remove_active s connection r
              ≡ record (emit s leave m) { active = erase r.route.character_id s.active }))
  unfolding remove_active
  remove_cases = elim (Option-cases (find r.route.character_id s.active)) [
    | inl none_found ↦ inl (ground arith)
    | inr (m, e) ↦ elim (Bool-cases (same_binding m connection r)) [
      | inl same ↦ inr (m, e, ground arith)
      | inr other ↦ inl (ground arith)
    ]
  ]
