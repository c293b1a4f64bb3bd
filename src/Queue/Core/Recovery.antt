-- ===== src/Queue/Core/Recovery.antt =====
-- The snapshots of queue_core.cpp: `validate`, `restore` and `snapshot`.
use realm_mesh.Prelude.{
  ℕ, ◌+◌, ◌≤◌, ◌<◌, ◌≡◌, refl, ◌↔◌, List, [], ◌∷◌, false, ok, arith, Option, none, some, IsU64,
  Bool-cases, inl, inr, ltb, leb, ap, ◌∙◌,
}
use realm_mesh.Queue.Core.{
  QueueCore, QueueReleaseBatch, QueueSnapshot, validate, validate_ledger, restore, load_snapshot,
  snapshot, has_future_release, prune_release_batches,
}
use realm_mesh.Queue.Core.Ledger.{Covers, Covers-le, IsConsistent, prune-IsConsistent}
use realm_mesh.Queue.Core.Windows.{KeepsWindow, prune-KeepsWindow}

abbrev since_of : Option ℕ → ℕ
since_of none = 0
since_of (some t) = t

validate_ledger-Covers :
    (r p : ℕ) (previous : Option ℕ) (bs : List QueueReleaseBatch)
    → IsU64 (r + 1)
    → p ≤ r
    → validate_ledger r (p + 1) previous bs ≡ ok (r + 1)
    → Covers r p (since_of previous) bs
unfolding validate_ledger
validate_ledger-Covers r p previous [] h k e = ground arith
validate_ledger-Covers r p none (b ∷ bs) h k e =
    ground (arith, validate_ledger-Covers r b.last_number (some b.released_at) bs h)
validate_ledger-Covers r p (some t) (b ∷ bs) h k e =
    ground (arith, validate_ledger-Covers r b.last_number (some b.released_at) bs h)

Covers-validate_ledger :
    (r p : ℕ) (previous : Option ℕ) (bs : List QueueReleaseBatch)
    → IsU64 (r + 1)
    → Covers r p (since_of previous) bs
    → validate_ledger r (p + 1) previous bs ≡ ok (r + 1)
unfolding validate_ledger
Covers-validate_ledger r p previous [] h k = ground arith
Covers-validate_ledger r p none (b ∷ bs) h k =
    ground (arith, Covers-validate_ledger r b.last_number (some b.released_at) bs h)
Covers-validate_ledger r p (some t) (b ∷ bs) h k =
    ground (arith, Covers-validate_ledger r b.last_number (some b.released_at) bs h)

-- What a snapshot has to say: the watermarks in order, and a ledger that covers them.
abbrev pub IsLedger : QueueSnapshot → Type 0
IsLedger s =
    (s.released_number < s.next_number)
    × Covers s.released_number s.release_batches_pruned_through 0 s.release_batches

-- `validate` accepts a snapshot, of numbers in the range of `uint64_t`, exactly if its ledger covers
-- the released numbers that are not pruned, without a gap and in order of time.
pub validate_iff : (s : QueueSnapshot) → IsU64 s.next_number → (validate s ≡ ok tt) ↔ IsLedger s
unfolding validate
validate_iff s h = (accepted, accepts)
  where
    accepted : validate s ≡ ok tt → IsLedger s
    accepted e = elim (Bool-cases (leb s.next_number s.released_number)) [
      | inl bad ↦ absurd (ground arith)
      | inr low ↦ elim (Bool-cases (ltb s.released_number s.release_batches_pruned_through)) [
        | inl bad ↦ absurd (ground arith)
        | inr kept ↦ (
          ground arith,
          ground (
            arith,
            validate_ledger-Covers s.released_number s.release_batches_pruned_through none
                s.release_batches,
          ),
        )
      ]
    ]

    accepts : IsLedger s → validate s ≡ ok tt
    accepts (low, cover) = ground (
      arith,
      Covers-le s.released_number s.release_batches_pruned_through 0 s.release_batches cover,
      Covers-validate_ledger s.released_number s.release_batches_pruned_through none
          s.release_batches,
    )

pub restore_cases :
    (c : QueueCore) (s : QueueSnapshot) (now : ℕ) (d : QueueCore)
    → restore c s now ≡ ok d
    → (validate s ≡ ok tt)
      × (has_future_release now s.release_batches ≡ false)
      × (d ≡ prune_release_batches (load_snapshot c s) now)
unfolding restore
restore_cases c s now d e = ground arith

restore_run :
    (c : QueueCore) (s : QueueSnapshot) (now : ℕ)
    → validate s ≡ ok tt
    → has_future_release now s.release_batches ≡ false
    → restore c s now ≡ ok (prune_release_batches (load_snapshot c s) now)
unfolding restore
restore_run c s now e f = rw (e, f) refl

load_snapshot-IsConsistent :
    (c : QueueCore) (s : QueueSnapshot)
    → IsU64 s.next_number
    → IsLedger s
    → IsConsistent (load_snapshot c s)
unfolding load_snapshot
load_snapshot-IsConsistent c s h k = record { behind = k.0; in_range = h; covered = k.1 }

restored_fields :
    (c : QueueCore) (s : QueueSnapshot) (now : ℕ)
    → let d = prune_release_batches (load_snapshot c s) now in
      (d.released_number ≡ s.released_number)
      × (d.next_number ≡ s.next_number)
      × (d.release_step ≡ c.release_step)
      × (d.rate_window ≡ c.rate_window)
      × (d.grant_window ≡ c.grant_window)
unfolding load_snapshot prune_release_batches
restored_fields c s now = (refl, refl, refl, refl, refl)

-- Whatever the queue held before, what `restore` lets through leaves it consistent, at the
-- watermarks of the snapshot and under its own configuration.
pub restore-IsConsistent :
    (c : QueueCore) (s : QueueSnapshot) (now : ℕ) (d : QueueCore)
    → IsU64 s.next_number
    → restore c s now ≡ ok d
    → IsConsistent d
      × (d.released_number ≡ s.released_number)
      × (d.next_number ≡ s.next_number)
      × (d.release_step ≡ c.release_step)
      × (d.rate_window ≡ c.rate_window)
      × (d.grant_window ≡ c.grant_window)
restore-IsConsistent c s now d h e =
    let (valid, _, d_eq) = restore_cases c s now d e in
    let good = load_snapshot-IsConsistent c s h ((validate_iff s h).0 valid) in
    let (f0, f1, f2, f3, f4) = restored_fields c s now in
    rw d_eq (prune-IsConsistent now good, f0, f1, f2, f3, f4)

snapshot-IsLedger : (c : QueueCore) (now : ℕ) → IsConsistent c → IsLedger (snapshot c now)
unfolding snapshot
snapshot-IsLedger c now v = (v.behind, v.covered)

snapshot_fields :
    (c : QueueCore) (now : ℕ)
    → ((snapshot c now).next_number ≡ c.next_number)
      × ((snapshot c now).release_batches ≡ c.release_batches)
unfolding snapshot
snapshot_fields c now = (refl, refl)

load-snapshot :
    (c e : QueueCore) (now : ℕ)
    → e.release_step ≡ c.release_step
    → e.rate_window ≡ c.rate_window
    → e.grant_window ≡ c.grant_window
    → load_snapshot e (snapshot c now) ≡ c
unfolding load_snapshot snapshot
load-snapshot c e now a b g = ground arith

-- A restart loses nothing: a queue of the same configuration that restores the snapshot of a
-- consistent queue, none of whose releases is in its future, is the old queue pruned as of the
-- restart. So it is consistent, and each released number keeps its status and its open window from
-- the restart on.
pub restore-snapshot :
    (c e : QueueCore) (now restart later number : ℕ)
    → IsConsistent c
    → e.release_step ≡ c.release_step
    → e.rate_window ≡ c.rate_window
    → e.grant_window ≡ c.grant_window
    → has_future_release restart c.release_batches ≡ false
    → restart ≤ later
    → 0 < number
    → number ≤ c.released_number
    → (restore e (snapshot c now) restart ≡ ok (prune_release_batches c restart))
      × IsConsistent (prune_release_batches c restart)
      × KeepsWindow c (prune_release_batches c restart) later number
restore-snapshot c e now restart later number v a b g f h pos hi =
    let (n, bs) = snapshot_fields c now in
    let valid = (validate_iff (snapshot c now) (rw n v.in_range)).1 (snapshot-IsLedger c now v) in
    (
      restore_run e (snapshot c now) restart valid (rw bs f)
          ∙ ap (λ q. ok (prune_release_batches q restart)) (load-snapshot c e now a b g),
      prune-IsConsistent restart v,
      prune-KeepsWindow c restart later number v h pos hi,
    )
