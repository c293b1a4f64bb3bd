-- ===== src/Queue/Core/Ledger.antt =====
-- The ledger of release batches of queue_core.cpp, and what makes it consistent.
use realm_mesh.Prelude.{
  ℕ, ◌+◌, ◌≤◌, ◌<◌, ◌-◌, min, add64, ◌≡◌, refl, List, [], ◌∷◌, ◌++◌, false, arith, IsU64,
  Bool-cases, inl, inr,
}
use realm_mesh.Queue.Core.{
  QueueCore, QueueReleaseBatch, BudgetAggregate, is_past, prune_from, prune_release_batches,
  append_batch, batch_size, last_released_at, whole_second, is_before,
}

-- The batches cover the numbers after `pruned` up to `released` without a gap, in the order of
-- their times, none of which is before `since`.
abbrev pub Covers : ℕ → ℕ → ℕ → List QueueReleaseBatch → Type 0
Covers released pruned since [] = pruned ≡ released
Covers released pruned since (b ∷ bs) =
    (b.first_number ≡ pruned + 1)
    × (b.first_number ≤ b.last_number)
    × (b.last_number ≤ released)
    × (since ≤ b.released_at)
    × Covers released b.last_number b.released_at bs

pub record IsConsistent (c : QueueCore) : Type 0 where
  pub behind : c.released_number < c.next_number
  pub in_range : IsU64 c.next_number
  pub covered : Covers c.released_number c.release_batches_pruned_through 0 c.release_batches

pub Covers-since :
    (r p s t : ℕ) (bs : List QueueReleaseBatch) → t ≤ s → Covers r p s bs → Covers r p t bs
Covers-since r p s t [] h k = k
Covers-since r p s t (b ∷ bs) h k = (k.0, k.1, k.2, omega arith, k.4)

pub Covers-le : (r p s : ℕ) (bs : List QueueReleaseBatch) → Covers r p s bs → p ≤ r
Covers-le r p s [] h = omega arith
Covers-le r p s (b ∷ bs) h = omega arith

pub prune_from-Covers :
    (g now r p s : ℕ) (bs : List QueueReleaseBatch)
    → Covers r p s bs
    → Covers r (prune_from g now p bs).0 s (prune_from g now p bs).1
unfolding prune_from
prune_from-Covers g now r p s [] h = h
prune_from-Covers g now r p s (b ∷ bs) h = elim (Bool-cases (is_past g now b)) [
  | inl e ↦ rw e (
      Covers-since r _ b.released_at s _ h.3
        (prune_from-Covers g now r b.last_number b.released_at bs h.4))
  | inr e ↦ rw e h
]

pub prune-IsConsistent :
    {c : QueueCore} (now : ℕ) → IsConsistent c → IsConsistent (prune_release_batches c now)
unfolding prune_release_batches
prune-IsConsistent {c} now v = record {
  behind = v.behind;
  in_range = v.in_range;
  covered =
      prune_from-Covers c.grant_window now c.released_number c.release_batches_pruned_through 0
        c.release_batches v.covered;
}

-- The size of a batch, by the watermarks of a consistent queue.
pub batch_size_eq :
    (c : QueueCore) (budgets : BudgetAggregate)
    → IsConsistent c
    → batch_size c budgets
      ≡ min
          (min (min budgets.gateway_admission budgets.realm_connections) c.release_step)
          (c.next_number - 1 - c.released_number)
unfolding batch_size
batch_size_eq c budgets v = omega (arith, v.behind, v.in_range)

-- `t` is not before the last batch of the list, nor before `since` if there is none.
abbrev pub Reaches : ℕ → ℕ → List QueueReleaseBatch → Type 0
Reaches t since [] = since ≤ t
Reaches t since (b ∷ bs) = Reaches t b.released_at bs

pub not_before-Reaches :
    (t : ℕ) (bs : List QueueReleaseBatch)
    → is_before t (last_released_at bs) ≡ false
    → Reaches t 0 bs
unfolding last_released_at
not_before-Reaches t [] h = omega arith
not_before-Reaches t (b ∷ []) h = ground arith
not_before-Reaches t (b ∷ c ∷ bs) h = not_before-Reaches t (c ∷ bs) h

pub append-Covers :
    (r p s n t : ℕ) (bs : List QueueReleaseBatch)
    → 0 < n
    → Reaches t s bs
    → Covers r p s bs
    → Covers
        (r + n)
        p
        s
        (bs ++ record { first_number = r + 1; last_number = r + n; released_at = t } ∷ [])
append-Covers r p s n t [] pos h k = (omega arith, omega arith, omega arith, h, refl)
append-Covers r p s n t (b ∷ bs) pos h (k0, k1, k2, k3, k4) =
    (k0, k1, omega arith, k3, append-Covers r b.last_number b.released_at n t bs pos h k4)

pub append_batch-IsConsistent :
    (c : QueueCore) (n now : ℕ)
    → IsConsistent c
    → 0 < n
    → c.released_number + n < c.next_number
    → is_before (whole_second now) (last_released_at c.release_batches) ≡ false
    → IsConsistent (append_batch c n now)
unfolding append_batch
append_batch-IsConsistent c n now v pos room later =
    let small : add64 c.released_number n ≡ c.released_number + n = omega (arith, v.in_range) in
    let first : add64 c.released_number 1 ≡ c.released_number + 1 = omega (arith, v.in_range) in
    record {
      behind = omega (arith, small);
      in_range = v.in_range;
      covered =
          rw (small, first)
            (append-Covers c.released_number _ 0 n (whole_second now) c.release_batches pos
              (not_before-Reaches _ c.release_batches later) v.covered);
    }
