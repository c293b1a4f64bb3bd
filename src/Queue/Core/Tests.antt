-- ===== src/Queue/Core/Tests.antt =====
-- Runs of the queue, and its theorems at concrete inputs.
use realm_mesh.Prelude.{
  ℕ, ◌+◌, ◌/◌, ◌-◌, ◌*◌, ◌≤◌, ◌≡◌, refl, [], ◌∷◌, ok, err, arith, runtime_error, invalid_argument,
  false, ◌⊎◌, ◌↔◌,
}
use realm_mesh.Queue.Core.{
  QueueCore, QueueReleaseBatch, QueueSnapshot, BudgetAggregate, second, construct, release_batch,
  release_eligibility, eligible, expired, snapshot, restore, validate, admit_rate,
  aggregate_budgets, prune_release_batches, whole_second, has_future_release,
}
use realm_mesh.Queue.Core.Ledger.{IsConsistent}
use realm_mesh.Queue.Core.Release.{Advances, IsBackward, allowed, release_batch_lem}
use realm_mesh.Queue.Core.Eligibility.{IsAmong}
use realm_mesh.Queue.Core.Windows.{
  IsOpen, eligible-IsOpen, KeepsWindow, release_batch-KeepsWindow, release_batch_fresh,
}
use realm_mesh.Queue.Core.Recovery.{IsLedger, validate_iff, restore-IsConsistent, restore-snapshot}
use realm_mesh.Queue.Core.Budgets.{numbers_since, aggregate_budgets_lem, admit_rate_lem}

-- Ten numbers issued, four of them released at second 100.
abbrev busy : QueueCore
busy = record {
  release_step = 3;
  rate_window = 10;
  grant_window = 300;
  released_number = 4;
  next_number = 11;
  release_batches_pruned_through = 0;
  release_batches = record { first_number = 1; last_number = 4; released_at = 100 * second } ∷ [];
}

busy-IsConsistent : IsConsistent busy
busy-IsConsistent = record {
  behind = omega arith;
  in_range = omega arith;
  covered = (refl, omega arith, omega arith, omega arith, refl);
}

abbrev plenty : BudgetAggregate
plenty = record { gateway_admission = 50; realm_connections = 20 }

-- The queue after one more batch, at second 101 and a bit.
abbrev busier : QueueCore
busier = record busy {
  released_number = 7;
  release_batches =
      record { first_number = 1; last_number = 4; released_at = 100 * second }
      ∷ record { first_number = 5; last_number = 7; released_at = 101 * second }
      ∷ [];
}

busy_releases : release_batch busy plenty (101 * second + 5) ≡ ok (busier, 3)
unfolding release_batch
busy_releases = refl

clock_back : release_batch busy plenty (99 * second) ≡ err runtime_error
unfolding release_batch
clock_back = refl

old_window :
    release_eligibility busier 4 (460 * second)
    ≡ record { status = eligible; released_at = 100 * second }
unfolding release_eligibility
old_window = refl

old_window_over :
    release_eligibility busier 4 (460 * second + 1)
    ≡ record { status = expired; released_at = 100 * second }
unfolding release_eligibility
old_window_over = refl

broken : validate (record (snapshot busier 0) { released_number = 8 }) ≡ err invalid_argument
unfolding validate snapshot
broken = refl

release_batch_lem_example :
    ((r : QueueCore × ℕ) × (release_batch busy plenty (101 * second + 5) ≡ ok r)
      × Advances busy plenty r)
    ⊎ ((release_batch busy plenty (101 * second + 5) ≡ err runtime_error)
        × ¬ (allowed busy plenty ≡ 0)
        × IsBackward busy (101 * second + 5))
release_batch_lem_example = release_batch_lem busy plenty (101 * second + 5) busy-IsConsistent

release_batch-KeepsWindow_example : KeepsWindow busy busier (300 * second) 2
release_batch-KeepsWindow_example =
    release_batch-KeepsWindow busy busier 3 plenty (101 * second + 5) busy-IsConsistent
      busy_releases (300 * second) 2 (omega arith) (omega arith) (omega arith)

release_batch_fresh_example :
    release_eligibility busier 6 (101 * second + 5)
    ≡ record { status = eligible; released_at = whole_second (101 * second + 5) }
release_batch_fresh_example =
    release_batch_fresh busy busier 3 plenty (101 * second + 5) busy-IsConsistent busy_releases 6
      (omega arith) (omega arith)

busy_window :
    release_eligibility busy 4 (460 * second)
    ≡ record { status = eligible; released_at = 100 * second }
unfolding release_eligibility
busy_window = refl

eligible-IsOpen_example :
    (release_eligibility busy 4 (460 * second)
      ≡ record { status = eligible; released_at = 100 * second })
    ↔ ((b : QueueReleaseBatch) × IsAmong b busy.release_batches
        × IsOpen 300 4 (460 * second) b
        × (b.released_at ≡ 100 * second))
eligible-IsOpen_example = eligible-IsOpen busy 4 (460 * second) (100 * second) busy-IsConsistent

abbrev cold : QueueSnapshot
cold = record {
  released_number = 4;
  next_number = 11;
  admit_rate = 0;
  release_batches_pruned_through = 0;
  release_batches = busy.release_batches;
}

validate_iff_example : (validate cold ≡ ok tt) ↔ IsLedger cold
validate_iff_example = validate_iff cold (omega arith)

abbrev empty : QueueCore
empty = record {
  release_step = 3;
  rate_window = 10;
  grant_window = 300;
  released_number = 0;
  next_number = 1;
  release_batches_pruned_through = 0;
  release_batches = [];
}

empty-construct : construct 3 10 300 ≡ ok empty
unfolding construct
empty-construct = refl

restores : restore empty cold (120 * second) ≡ ok busy
unfolding restore
restores = refl

restore-IsConsistent_example :
    IsConsistent busy
    × (busy.released_number ≡ 4)
    × (busy.next_number ≡ 11)
    × (busy.release_step ≡ 3)
    × (busy.rate_window ≡ 10)
    × (busy.grant_window ≡ 300)
restore-IsConsistent_example =
    restore-IsConsistent empty cold (120 * second) busy (omega arith) restores

no_future : has_future_release (120 * second) busy.release_batches ≡ false
unfolding has_future_release
no_future = refl

restore-snapshot_example :
    (restore empty (snapshot busy (110 * second)) (120 * second)
      ≡ ok (prune_release_batches busy (120 * second)))
    × IsConsistent (prune_release_batches busy (120 * second))
    × KeepsWindow busy (prune_release_batches busy (120 * second)) (200 * second) 3
restore-snapshot_example =
    restore-snapshot busy empty (110 * second) (120 * second) (200 * second) 3 busy-IsConsistent
      refl refl refl no_future (omega arith) (omega arith) (omega arith)

aggregate_budgets_lem_example :
    aggregate_budgets
      (record { conn_free = 7; fetch_free = 3 } ∷ [])
      (record { conn_free = 9 } ∷ [])
    ≡ record { gateway_admission = 3; realm_connections = 9 }
aggregate_budgets_lem_example =
    aggregate_budgets_lem (record { conn_free = 7; fetch_free = 3 } ∷ [])
      (record { conn_free = 9 } ∷ []) (omega arith) (omega arith)

admit_rate_lem_example :
    (admit_rate busy (105 * second)
      ≡ numbers_since (10 * second) (105 * second) busy.release_batches / 10)
    × (numbers_since (10 * second) (105 * second) busy.release_batches ≤ 4 - 0)
admit_rate_lem_example = admit_rate_lem busy (105 * second) busy-IsConsistent
