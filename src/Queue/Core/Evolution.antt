-- ===== src/Queue/Core/Evolution.antt =====
-- What happens to the queue of queue_core.cpp between two questions about a number: releases of batches, and
-- restores of a snapshot of the queue, after an issue of numbers or a restart.
use realm_mesh.Prelude.{
  ℕ, ◌≤◌, ◌<◌, ◌≡◌, refl, ◌∙◌, ap, subst, false, ok, arith, IsU64, inl, inr, sym,
}
use realm_mesh.Queue.Core.{
  QueueCore, QueueReleaseEligibility, BudgetAggregate, release_batch, snapshot, restore,
  prune_release_batches, has_future_release, admit_rate, QueueSnapshot, release_eligibility,
  eligible,
}
use realm_mesh.Queue.Core.Ledger.{IsConsistent}
use realm_mesh.Queue.Core.Release.{release_batch_lem}
use realm_mesh.Queue.Core.Eligibility.{release_time}
use realm_mesh.Queue.Core.Windows.{observed, KeepsWindow, release_batch-KeepsWindow}
use realm_mesh.Queue.Core.Recovery.{restore-snapshot}

-- The snapshot of the queue with `m` as the next number, as the store of the issued numbers writes it.
abbrev pub issued_up_to : ℕ → QueueSnapshot → QueueSnapshot
issued_up_to m s = record s { next_number = m }

-- The queue `e` comes from `c` by releases of batches and by restores, none of them after `later`. A queue
-- of the same configuration, itself or a new one after a restart, restores a snapshot of the queue, whose next
-- number may be higher for numbers that were issued, and none of whose releases is in its future.
pub data Evolves (later : ℕ) : QueueCore → QueueCore → Type 0 where
  unchanged : (c : QueueCore) → Evolves later c c
  releasing :
      (c d e : QueueCore) (now n : ℕ) (budgets : BudgetAggregate)
      → release_batch c budgets now ≡ ok (d, n)
      → now ≤ later
      → Evolves later d e
      → Evolves later c e
  restoring :
      (c d e fresh : QueueCore) (m now restart : ℕ)
      → fresh.release_step ≡ c.release_step
      → fresh.rate_window ≡ c.rate_window
      → fresh.grant_window ≡ c.grant_window
      → has_future_release restart c.release_batches ≡ false
      → c.next_number ≤ m
      → IsU64 m
      → restore fresh (issued_up_to m (snapshot c now)) restart ≡ ok d
      → restart ≤ later
      → Evolves later d e
      → Evolves later c e

released_more :
    (c d : QueueCore) (now n : ℕ) (budgets : BudgetAggregate)
    → IsConsistent c
    → release_batch c budgets now ≡ ok (d, n)
    → IsConsistent d × (c.released_number ≤ d.released_number)
released_more c d now n budgets v done = elim (release_batch_lem c budgets now v) [
  | inr (failed, due, back) ↦ absurd (cc)
  | inl (r, ran, (good, _, more, _)) ↦
      let same : r.0 ≡ d = cc in
      (subst IsConsistent same good, omega (arith, more, ap QueueCore.released_number same))
]

-- What is issued on top of a queue changes its next number alone.
abbrev with_issued : ℕ → QueueCore → QueueCore
with_issued m c = record c { next_number = m }

with_issued-IsConsistent :
    (m : ℕ) (c : QueueCore)
    → c.next_number ≤ m
    → IsU64 m
    → IsConsistent c
    → IsConsistent (with_issued m c)
with_issued-IsConsistent m c more small v =
    let behind = v.behind in
    record { behind = omega (arith, behind); in_range = small; covered = v.covered }

snapshot-with_issued :
    (m : ℕ) (c : QueueCore) (now : ℕ)
    → snapshot (with_issued m c) now ≡ issued_up_to m (snapshot c now)
unfolding snapshot admit_rate
snapshot-with_issued m c now = refl

with_issued-eligibility :
    (m : ℕ) (c : QueueCore) (number now : ℕ)
    → release_eligibility (with_issued m c) number now ≡ release_eligibility c number now
unfolding release_eligibility
with_issued-eligibility m c number now = refl

prune-released_number :
    (c : QueueCore) (now : ℕ) → (prune_release_batches c now).released_number ≡ c.released_number
unfolding prune_release_batches
prune-released_number c now = refl

-- Each number that was released keeps its status and, while it is eligible, the time of its release.
pub Evolves-KeepsWindow :
    (later number : ℕ) {c e : QueueCore}
    → Evolves later c e
    → IsConsistent c
    → 0 < number
    → number ≤ c.released_number
    → KeepsWindow c e later number
Evolves-KeepsWindow later number (unchanged c) v pos hi = refl
Evolves-KeepsWindow later number (releasing c d e now n budgets done at rest) v pos hi =
    let (good, more) = released_more c d now n budgets v done in
    Evolves-KeepsWindow later number rest good pos (omega arith)
    ∙ release_batch-KeepsWindow c d n budgets now v done later number at pos hi
Evolves-KeepsWindow later number
      (restoring c d e fresh m now restart f0 f1 f2 past more small done at rest) v pos hi =
    let b = with_issued m c in
    let (ran, good, kept) =
      restore-snapshot b fresh now restart later number (with_issued-IsConsistent m c more small v)
        f0 f1 f2 past at pos hi in
    let same : prune_release_batches b restart ≡ d =
      let it : ok (prune_release_batches b restart) ≡ ok d =
        sym ran ∙ ap (λ s. restore fresh s restart) (snapshot-with_issued m c now) ∙ done in
      cc it in
    let top = prune-released_number b restart in
    Evolves-KeepsWindow later number rest (subst IsConsistent same good) pos
      (omega (arith, top, ap QueueCore.released_number same))
    ∙ subst (λ q. KeepsWindow b q later number) same kept
    ∙ ap observed (with_issued-eligibility m c number later)

observed_time :
    (x y : QueueReleaseEligibility)
    → observed x ≡ observed y
    → x.status ≡ eligible
    → (y.status ≡ eligible) × (x.released_at ≡ y.released_at)
observed_time x y h e = ground (arith, h, e)

eligible_released :
    (c : QueueCore) (number now : ℕ)
    → (release_eligibility c number now).status ≡ eligible
    → (0 < number) × (number ≤ c.released_number)
unfolding release_eligibility
eligible_released c number now h = ground arith

-- A number that is eligible before and after has the same time of release.
pub Evolves-released_at :
    (c d : QueueCore) (number now later : ℕ)
    → IsConsistent c
    → Evolves later c d
    → (release_eligibility c number now).status ≡ eligible
    → (release_eligibility d number later).status ≡ eligible
    → (release_eligibility c number now).released_at
      ≡ (release_eligibility d number later).released_at
Evolves-released_at c d number now later v path before after =
    let (pos, hi) = eligible_released c number now before in
    let kept = Evolves-KeepsWindow later number path v pos hi in
    let (open_too, at) = observed_time _ _ kept after in
    release_time c number now later before open_too ∙ sym at
