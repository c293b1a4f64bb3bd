-- ===== src/Queue/Core/Release.antt =====
-- What one frame's `release_batch` does to the two watermarks, on each of its branches.
use realm_mesh.Prelude.{
  ℕ, ◌+◌, ◌<◌, ◌-◌, min, ◌≡◌, refl, ◌≢◌, ◌⊎◌, true, false, ok, err, arith, Bool-cases, inl, inr,
  ◌==◌, ==_iff, runtime_error,
}
use realm_mesh.Queue.Core.{
  QueueCore, BudgetAggregate, prune_release_batches, release_batch, append_batch, batch_size,
  last_released_at, whole_second, is_before,
}
use realm_mesh.Queue.Core.Ledger.{
  IsConsistent, batch_size_eq, append_batch-IsConsistent, prune-IsConsistent,
}

-- The size that the watermarks and the budgets allow: what both sides can take, at most a step, and
-- no more than the numbers issued and not yet released.
abbrev pub allowed : QueueCore → BudgetAggregate → ℕ
allowed c budgets =
    min (min (min budgets.gateway_admission budgets.realm_connections) c.release_step)
      (c.next_number - 1 - c.released_number)

-- A release at whole second `t` would come before the last batch.
abbrev pub IsBackward : QueueCore → ℕ → Type 0
IsBackward c now = is_before (whole_second now) (last_released_at c.release_batches) ≡ true

abbrev pub Advances : QueueCore → BudgetAggregate → QueueCore × ℕ → Type 0
Advances c budgets (d, n) =
    IsConsistent d
    × (n ≡ allowed c budgets)
    × (d.released_number ≡ c.released_number + n)
    × (d.next_number ≡ c.next_number)

module _ (c : QueueCore) (budgets : BudgetAggregate) (now : ℕ) where
  pub release_batch_none :
      batch_size c budgets ≡ 0
      → release_batch c budgets now ≡ ok (prune_release_batches c now, batch_size c budgets)
  unfolding release_batch
  release_batch_none e = rw e refl

  release_batch_backward :
      batch_size c budgets ≢ 0 → IsBackward c now → release_batch c budgets now ≡ err runtime_error
  unfolding release_batch
  release_batch_backward e h = ground arith

  pub release_batch_forward :
      batch_size c budgets ≢ 0
      → is_before (whole_second now) (last_released_at c.release_batches) ≡ false
      → release_batch c budgets now
        ≡ ok (
          prune_release_batches (append_batch c (batch_size c budgets) now) now,
          batch_size c budgets,
        )
  unfolding release_batch
  release_batch_forward e h = ground arith

  forward-Advances :
      IsConsistent c
      → batch_size c budgets ≢ 0
      → is_before (whole_second now) (last_released_at c.release_batches) ≡ false
      → Advances c budgets (
        prune_release_batches (append_batch c (batch_size c budgets) now) now,
        batch_size c budgets,
      )
  unfolding prune_release_batches append_batch
  forward-Advances v e h =
      let size = batch_size_eq c budgets v in
      (
        prune-IsConsistent now (
            append_batch-IsConsistent c (batch_size c budgets) now v (omega arith)
              (omega (arith, size, v.behind)) h),
        size,
        omega (arith, size, v.behind, v.in_range),
        refl,
      )

  -- A consistent queue releases exactly the batch that the budgets, the step and the issued numbers
  -- allow and stays consistent, or, if a batch is due and the clock is before the last batch, throws.
  pub release_batch_lem :
      IsConsistent c
      → ((r : QueueCore × ℕ) × (release_batch c budgets now ≡ ok r) × Advances c budgets r)
        ⊎ ((release_batch c budgets now ≡ err runtime_error)
            × (allowed c budgets ≢ 0)
            × IsBackward c now)
  release_batch_lem v = elim (Bool-cases (batch_size c budgets == 0)) [
    | inl e ↦
        let z : batch_size c budgets ≡ 0 = (==_iff _ _).0 e in inl (_, release_batch_none z, idle z)
    | inr e ↦
        elim (Bool-cases (is_before (whole_second now) (last_released_at c.release_batches))) [
          | inl back ↦ inr (
            release_batch_backward (nonzero e) back,
            omega (arith, nonzero e, batch_size_eq c budgets v),
            back,
          )
          | inr fwd ↦
              inl (_, release_batch_forward (nonzero e) fwd, forward-Advances v (nonzero e) fwd)
        ]
  ]
    where
      nonzero : (batch_size c budgets == 0) ≡ false → batch_size c budgets ≢ 0
      nonzero e = λ z. ground arith

      idle :
          batch_size c budgets ≡ 0
          → Advances c budgets (prune_release_batches c now, batch_size c budgets)
      idle z = (
        prune-IsConsistent now v,
        batch_size_eq c budgets v,
        unfold prune_release_batches in omega (arith, z),
        unfold prune_release_batches in refl,
      )

  -- A successful call either prunes alone, or appends a batch first.
  pub release_batch_cases :
      IsConsistent c
      → (d : QueueCore) (n : ℕ) → release_batch c budgets now ≡ ok (d, n)
      → ((n ≡ 0) × (d ≡ prune_release_batches c now))
        ⊎ ((0 < n)
            × (c.released_number + n < c.next_number)
            × (is_before (whole_second now) (last_released_at c.release_batches) ≡ false)
            × (d ≡ prune_release_batches (append_batch c n now) now))
  release_batch_cases v d n done = elim (Bool-cases (batch_size c budgets == 0)) [
    | inl e ↦
        let z : batch_size c budgets ≡ 0 = (==_iff _ _).0 e in
        inl (cc (release_batch_none z), cc (release_batch_none z))
    | inr e ↦
        let nz : batch_size c budgets ≢ 0 = λ z. ground arith in
        elim (Bool-cases (is_before (whole_second now) (last_released_at c.release_batches))) [
          | inl back ↦ absurd (cc (release_batch_backward nz back))
          | inr fwd ↦
              let run = release_batch_forward nz fwd in
              let size : n ≡ batch_size c budgets = cc run in
              inr (
                omega (arith, size, nz),
                omega (arith, size, batch_size_eq c budgets v, v.behind),
                fwd,
                cc (run, size),
              )
        ]
  ]
