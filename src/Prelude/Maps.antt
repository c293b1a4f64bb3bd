-- ===== src/Prelude/Maps.antt =====
-- std::map from uint64_t keys: a list of entries in the order of the keys.
use Prim.Native.Nat.{ℕ, suc, ◌+◌, ◌≤◌, ◌<◌}
use mathlib.Core.Path.{◌≡◌, refl}
use mathlib.Core.Bool.{Bool, true, false}
use mathlib.Core.Option.{Option, none, some}
use mathlib.Core.List.{List, [], ◌∷◌}
use native.Mathlib.Omega.{arith}
use realm_mesh.Prelude.Tests.{ltb, ◌==◌, if◌then◌else◌}
use realm_mesh.Prelude.Lists.{length}

abbrev pub Map : Type 0 → Type 0
Map V = List (ℕ × V)

module _ {V : Type 0} where
  unfoldable pub find : ℕ → Map V → Option V
  find k [] = none
  find k ((j, v) ∷ m) = if k == j then some v else find k m

  unfoldable pub contains : ℕ → Map V → Bool
  contains k [] = false
  contains k ((j, v) ∷ m) = if k == j then true else contains k m

  -- `m[k] = v`
  unfoldable pub put : ℕ → V → Map V → Map V
  put k v [] = (k, v) ∷ []
  put k v ((j, w) ∷ m) =
      if k == j then (k, v) ∷ m else if ltb k j then (k, v) ∷ (j, w) ∷ m else (j, w) ∷ put k v m

  unfoldable pub erase : ℕ → Map V → Map V
  erase k [] = []
  erase k ((j, v) ∷ m) = if k == j then m else (j, v) ∷ erase k m

  -- `std::erase_if`, by a test on the value.
  unfoldable pub erase_if : (V → Bool) → Map V → Map V
  erase_if p [] = []
  erase_if p ((j, v) ∷ m) = if p v then erase_if p m else (j, v) ∷ erase_if p m

  -- The keys rise, from `low` on.
  abbrev pub Ordered : ℕ → Map V → Type 0
  Ordered low [] = Unit {0}
  Ordered low ((k, v) ∷ m) = (low ≤ k) × Ordered (suc k) m

  pub Ordered-le : (a b : ℕ) (m : Map V) → a ≤ b → Ordered b m → Ordered a m
  Ordered-le a b [] h o = tt
  Ordered-le a b ((k, v) ∷ m) h o = (omega arith, o.1)

  pub find_below : (k low : ℕ) (m : Map V) → Ordered low m → k < low → find k m ≡ none
  unfolding find
  find_below k low [] o h = refl
  find_below k low ((j, v) ∷ m) (l, o) h = ground (arith, find_below k (suc j) m o)

  pub find-put :
      (j k : ℕ) (v : V) (m : Map V) → find j (put k v m) ≡ (if j == k then some v else find j m)
  unfolding find put
  find-put j k v [] = refl
  find-put j k v ((i, w) ∷ m) = ground (arith, find-put j k v m)

  pub find-erase :
      (j k low : ℕ) (m : Map V)
      → Ordered low m
      → find j (erase k m) ≡ (if j == k then none else find j m)
  unfolding find erase
  find-erase j k low [] o = ground arith
  find-erase j k low ((i, w) ∷ m) (l, o) =
      ground (arith, find-erase j k (suc i) m o, find_below j (suc i) m o)

  pub Ordered-put :
      (k low : ℕ) (v : V) (m : Map V) → low ≤ k → Ordered low m → Ordered low (put k v m)
  unfolding put
  Ordered-put k low v [] h o = (h, tt)
  Ordered-put k low v ((j, w) ∷ m) h (l, o) =
      ground (arith, λ (p : suc j ≤ k). Ordered-put k (suc j) v m p o)

  pub Ordered-erase : (k low : ℕ) (m : Map V) → Ordered low m → Ordered low (erase k m)
  unfolding erase
  Ordered-erase k low [] o = tt
  Ordered-erase k low ((j, w) ∷ m) (l, o) =
      ground (arith, Ordered-erase k (suc j) m o, Ordered-le low (suc j) m)

  pub Ordered-erase_if :
      (p : V → Bool) (low : ℕ) (m : Map V) → Ordered low m → Ordered low (erase_if p m)
  unfolding erase_if
  Ordered-erase_if p low [] o = tt
  Ordered-erase_if p low ((j, w) ∷ m) (l, o) =
      ground (arith, Ordered-erase_if p (suc j) m o, Ordered-le low (suc j) (erase_if p m))

  pub contains_below : (k low : ℕ) (m : Map V) → Ordered low m → k < low → contains k m ≡ false
  unfolding contains
  contains_below k low [] o h = refl
  contains_below k low ((j, v) ∷ m) (l, o) h = ground (arith, contains_below k (suc j) m o)

  pub contains-put :
      (j k : ℕ) (v : V) (m : Map V)
      → contains j (put k v m) ≡ (if j == k then true else contains j m)
  unfolding contains put
  contains-put j k v [] = refl
  contains-put j k v ((i, w) ∷ m) = ground (arith, contains-put j k v m)

  pub contains-erase :
      (j k low : ℕ) (m : Map V)
      → Ordered low m
      → contains j (erase k m) ≡ (if j == k then false else contains j m)
  unfolding contains erase
  contains-erase j k low [] o = ground arith
  contains-erase j k low ((i, w) ∷ m) (l, o) =
      ground (arith, contains-erase j k (suc i) m o, contains_below j (suc i) m o)

  pub contains-find : (k : ℕ) (m : Map V) (v : V) → find k m ≡ some v → contains k m ≡ true
  unfolding contains find
  contains-find k [] v e = cc
  contains-find k ((j, w) ∷ m) v e = ground (arith, contains-find k m v)

  pub contains-find-none : (k : ℕ) (m : Map V) → find k m ≡ none → contains k m ≡ false
  unfolding contains find
  contains-find-none k [] e = refl
  contains-find-none k ((j, w) ∷ m) e = ground (arith, contains-find-none k m)

  pub length-put :
      (k low : ℕ) (v : V) (m : Map V)
      → Ordered low m
      → length (put k v m) ≡ (if contains k m then 0 else 1) + length m
  unfolding contains put
  length-put k low v [] o = omega arith
  length-put k low v ((j, w) ∷ m) (l, o) =
      ground (arith, length-put k (suc j) v m o, contains_below k (suc j) m o)

  pub length-erase :
      (k : ℕ) (m : Map V) → length (erase k m) + (if contains k m then 1 else 0) ≡ length m
  unfolding contains erase
  length-erase k [] = omega arith
  length-erase k ((j, w) ∷ m) = ground (arith, length-erase k m)
