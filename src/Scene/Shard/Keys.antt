-- ===== src/Scene/Shard/Keys.antt =====
-- The keys and the order of the three maps of a shard.
use realm_mesh.Prelude.{
  ℕ, ◌≡◌, [], ◌∷◌, Bool, arith, some, Map, find, put, erase, erase_if, Ordered, Ordered-put,
  Ordered-erase, Ordered-erase_if,
}
use realm_mesh.Scene.Shard.{Member, SceneShard}

abbrev pub Keyed : Map Member → Type 0
Keyed [] = Unit {0}
Keyed ((k, m) ∷ ms) = (m.route.character_id ≡ k) × Keyed ms

pub find-Keyed :
    (k : ℕ) (ms : Map Member) (x : Member)
    → Keyed ms
    → find k ms ≡ some x
    → x.route.character_id ≡ k
unfolding find
find-Keyed k [] x h e = cc
find-Keyed k ((j, m) ∷ ms) x (h, hs) e = ground (arith, find-Keyed k ms x hs)

pub Keyed-put :
    (k : ℕ) (v : Member) (ms : Map Member)
    → v.route.character_id ≡ k
    → Keyed ms
    → Keyed (put k v ms)
unfolding put
Keyed-put k v [] e h = (e, tt)
Keyed-put k v ((j, m) ∷ ms) e (h, hs) = ground (arith, Keyed-put k v ms e hs)

pub Keyed-erase : (k : ℕ) (ms : Map Member) → Keyed ms → Keyed (erase k ms)
unfolding erase
Keyed-erase k [] h = tt
Keyed-erase k ((j, m) ∷ ms) (h, hs) = ground (arith, Keyed-erase k ms hs)

pub Keyed-erase_if : (p : Member → Bool) (ms : Map Member) → Keyed ms → Keyed (erase_if p ms)
unfolding erase_if
Keyed-erase_if p [] h = tt
Keyed-erase_if p ((j, m) ∷ ms) (h, hs) = ground (arith, Keyed-erase_if p ms hs)

abbrev pub IsTable : Map Member → Type 0
IsTable ms = Ordered 0 ms × Keyed ms

pub IsTable-put :
    (k : ℕ) (v : Member) (ms : Map Member)
    → v.route.character_id ≡ k
    → IsTable ms
    → IsTable (put k v ms)
IsTable-put k v ms e (o, h) = (Ordered-put k 0 v ms (omega arith) o, Keyed-put k v ms e h)

pub IsTable-erase : (k : ℕ) (ms : Map Member) → IsTable ms → IsTable (erase k ms)
IsTable-erase k ms (o, h) = (Ordered-erase k 0 ms o, Keyed-erase k ms h)

pub IsTable-erase_if : (p : Member → Bool) (ms : Map Member) → IsTable ms → IsTable (erase_if p ms)
IsTable-erase_if p ms (o, h) = (Ordered-erase_if p 0 ms o, Keyed-erase_if p ms h)

pub record IsKeyed (s : SceneShard) : Type 0 where
  pub active_table : IsTable s.active
  pub prepared_table : IsTable s.prepared
  pub candidate_table : IsTable s.candidates
