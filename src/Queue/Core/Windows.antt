-- ===== src/Queue/Core/Windows.antt =====
-- Release windows across the operations of the queue: who may redeem a grant, and until when.
use realm_mesh.Prelude.{
  ℕ, ◌+◌, ◌*◌, ◌≤◌, ◌<◌, ◌≡◌, ◌↔◌, refl, sym, ◌∙◌, ◌⊎◌, inl, inr, [], ◌∷◌, ◌++◌, arith, ok, add64,
  ap,
}
use native.Mathlib.Decide.{dec_le}
use realm_mesh.Queue.Core.{
  QueueCore, QueueReleaseBatch, QueueReleaseEligibility, not_released, eligible, expired, second,
  prune_release_batches, find_window, release_eligibility, no_window, whole_second,
  jws_clock_leeway, BudgetAggregate, release_batch, append_batch,
}
use realm_mesh.Queue.Core.Ledger.{Covers-le, IsConsistent, append_batch-IsConsistent}
use realm_mesh.Queue.Core.Release.{release_batch_cases}
use realm_mesh.Queue.Core.Eligibility.{
  window, IsAmong, find_window-IsAmong, find_window-Covers, find_window-append,
  find_window-append_last, prune_from-PruneKeeps, prune_from-le, PruneKeeps,
}

-- The number has been handed out and released, and is not pruned.
release_eligibility_kept :
    (c : QueueCore) (number now : ℕ)
    → 0 < number
    → number ≤ c.released_number
    → c.release_batches_pruned_through < number
    → release_eligibility c number now ≡ find_window c.grant_window now number c.release_batches
unfolding release_eligibility
release_eligibility_kept c number now h k l = ground arith

release_eligibility_pruned :
    (c : QueueCore) (number now : ℕ)
    → 0 < number
    → number ≤ c.released_number
    → number ≤ c.release_batches_pruned_through
    → release_eligibility c number now ≡ no_window expired
unfolding release_eligibility
release_eligibility_pruned c number now h k l = ground arith

release_eligibility_ahead :
    (c : QueueCore) (number now : ℕ)
    → (number ≡ 0) ⊎ (c.released_number < number)
    → release_eligibility c number now ≡ no_window not_released
unfolding release_eligibility
release_eligibility_ahead c number now h = ground arith

-- The batch holds the number, and its window is still open.
abbrev pub IsOpen : ℕ → ℕ → ℕ → QueueReleaseBatch → Type 0
IsOpen grant_window number now b =
    (b.first_number ≤ number)
    × (number ≤ b.last_number)
    × (now ≤ b.released_at + grant_window * second + jws_clock_leeway * second)

eligible_batch :
    (c : QueueCore) (number now : ℕ) (t : ℕ)
    → IsConsistent c
    → release_eligibility c number now ≡ record { status = eligible; released_at = t }
    → (b : QueueReleaseBatch) × IsAmong b c.release_batches
      × IsOpen c.grant_window number now b
      × (b.released_at ≡ t)
eligible_batch c number now t v e = elim (dec_le number 0) [
  | yes z ↦ absurd (cc (release_eligibility_ahead c number now (inl (omega arith)), e))
  | no p ↦ elim (dec_le number c.released_number) [
    | no q ↦ absurd (cc (release_eligibility_ahead c number now (inr (omega arith)), e))
    | yes q ↦ elim (dec_le number c.release_batches_pruned_through) [
      | yes r ↦ absurd (cc (release_eligibility_pruned c number now (omega arith) q r, e))
      | no r ↦
          let (b, m, l, u, w) =
            find_window-Covers c.grant_window now number c.released_number
              c.release_batches_pruned_through 0 c.release_batches v.covered (omega arith) q in
          let x : window c.grant_window now b ≡ record { status = eligible; released_at = t } =
            sym w ∙ sym (release_eligibility_kept c number now (omega arith) q (omega arith)) ∙ e in
          (b, m, (l, u, ground arith), ground arith)
    ]
  ]
]

batch_eligible :
    (c : QueueCore) (number now : ℕ) (b : QueueReleaseBatch)
    → IsConsistent c
    → IsAmong b c.release_batches
    → IsOpen c.grant_window number now b
    → release_eligibility c number now ≡ record { status = eligible; released_at = b.released_at }
batch_eligible c number now b v m (lo, hi, early) =
    let (above, released, found) =
      find_window-IsAmong c.grant_window now number c.released_number
        c.release_batches_pruned_through 0 b c.release_batches v.covered m lo hi in
    let fine : window c.grant_window now b
        ≡ record { status = eligible; released_at = b.released_at } =
      ground (arith, early) in
    release_eligibility_kept c number now (omega arith) released above ∙ found ∙ fine

-- In a consistent queue a number is eligible, with `t` as the time of its release, exactly if a batch of
-- the ledger was released at `t`, holds the number and has an open window.
pub eligible-IsOpen :
    (c : QueueCore) (number now : ℕ) (t : ℕ)
    → IsConsistent c
    → (release_eligibility c number now ≡ record { status = eligible; released_at = t }) ↔ (
        (b : QueueReleaseBatch) × IsAmong b c.release_batches
        × IsOpen c.grant_window number now b
        × (b.released_at ≡ t))
eligible-IsOpen c number now t v = (
  eligible_batch c number now t v,
  λ (b, m, holds, at).
      batch_eligible c number now b v m holds
      ∙ ap (λ x. record { status = eligible; released_at = x }) at,
)

-- What counts of an answer: the status, and the time of the release while the number is eligible.
abbrev pub observed : QueueReleaseEligibility → QueueReleaseEligibility
observed e = elim e.status [
  | not_released ↦ no_window not_released
  | eligible ↦ e
  | expired ↦ no_window expired
]

-- Seen from `later`, the queue `d` answers for the number what `c` answers.
abbrev pub KeepsWindow : QueueCore → QueueCore → ℕ → ℕ → Type 0
KeepsWindow c d later number =
    observed (release_eligibility d number later) ≡ observed (release_eligibility c number later)

observed_eligible :
    (e : QueueReleaseEligibility) (t : ℕ)
    → observed e ≡ record { status = eligible; released_at = t }
    → e ≡ record { status = eligible; released_at = t }
observed_eligible e t h = ground arith

prune-find_window :
    (c : QueueCore) (now later number : ℕ)
    → IsConsistent c
    → now ≤ later
    → c.release_batches_pruned_through < number
    → PruneKeeps c.grant_window later number c.release_batches (
      (prune_release_batches c now).release_batches_pruned_through,
      (prune_release_batches c now).release_batches,
    )
unfolding prune_release_batches
prune-find_window c now later number v h lo =
    prune_from-PruneKeeps c.grant_window now later number c.released_number
      c.release_batches_pruned_through 0 c.release_batches h v.covered lo

prune-same :
    (c : QueueCore) (now : ℕ)
    → ((prune_release_batches c now).released_number ≡ c.released_number)
      × ((prune_release_batches c now).grant_window ≡ c.grant_window)
unfolding prune_release_batches
prune-same c now = (refl, refl)

kept-KeepsWindow :
    (c : QueueCore) (now later number : ℕ)
    → IsConsistent c
    → now ≤ later
    → 0 < number
    → number ≤ c.released_number
    → c.release_batches_pruned_through < number
    → KeepsWindow c (prune_release_batches c now) later number
kept-KeepsWindow c now later number v h pos hi lo =
    let d = prune_release_batches c now in
    let same = prune-same c now in
    let old = release_eligibility_kept c number later pos hi lo in
    elim (prune-find_window c now later number v h lo) [
      | inl (q, e) ↦
          let new = release_eligibility_kept d number later pos (omega (arith, same.0)) q in
          ground (arith, old, new, e, same.1)
      | inr (q, e) ↦
          let new = release_eligibility_pruned d number later pos (omega (arith, same.0)) q in
          ground (arith, old, new, e)
    ]

pruned-le :
    (c : QueueCore) (now : ℕ)
    → IsConsistent c
    → c.release_batches_pruned_through
      ≤ (prune_release_batches c now).release_batches_pruned_through
unfolding prune_release_batches
pruned-le c now v =
    prune_from-le c.grant_window now c.released_number c.release_batches_pruned_through 0
      c.release_batches v.covered

pub prune-KeepsWindow :
    (c : QueueCore) (now later number : ℕ)
    → IsConsistent c
    → now ≤ later
    → 0 < number
    → number ≤ c.released_number
    → KeepsWindow c (prune_release_batches c now) later number
prune-KeepsWindow c now later number v h pos hi =
    elim (dec_le number c.release_batches_pruned_through) [
      | no lo ↦ kept-KeepsWindow c now later number v h pos hi (omega arith)
      | yes lo ↦
          let old = release_eligibility_pruned c number later pos hi lo in
          let new =
            release_eligibility_pruned (prune_release_batches c now) number later pos
              (omega (arith, (prune-same c now).0)) (omega (arith, pruned-le c now v)) in
          cc (old, new)
    ]

window_fresh :
    (g now : ℕ) (b : QueueReleaseBatch)
    → b.released_at ≡ whole_second now
    → window g now b ≡ record { status = eligible; released_at = whole_second now }
window_fresh g now b e = rw e (ground arith)

module _ (c : QueueCore) (n now : ℕ) (v : IsConsistent c) (pos : 0 < n)
    (room : c.released_number + n < c.next_number) where
  append_batch_fields :
      ((append_batch c n now).released_number ≡ c.released_number + n)
      × ((append_batch c n now).grant_window ≡ c.grant_window)
      × ((append_batch c n now).release_batches_pruned_through ≡ c.release_batches_pruned_through)
      × ((append_batch c n now).release_batches
          ≡ c.release_batches
            ++ record {
              first_number = c.released_number + 1;
              last_number = c.released_number + n;
              released_at = whole_second now;
            }
              ∷ [])
  unfolding append_batch
  append_batch_fields =
      let small : add64 c.released_number n ≡ c.released_number + n = omega (arith, v.in_range) in
      let first : add64 c.released_number 1 ≡ c.released_number + 1 = omega (arith, v.in_range) in
      (small, refl, refl, rw (small, first) refl)

  append_batch-eligibility :
      (later number : ℕ)
      → 0 < number
      → number ≤ c.released_number
      → release_eligibility (append_batch c n now) number later ≡ release_eligibility c number later
  append_batch-eligibility later number p hi =
      let (f0, f1, f2, f3) = append_batch_fields in
      elim (dec_le number c.release_batches_pruned_through) [
        | yes lo ↦
            release_eligibility_pruned (append_batch c n now) number later p (omega (arith, f0))
              (omega (arith, f2))
            ∙ sym (release_eligibility_pruned c number later p hi lo)
        | no lo ↦
            release_eligibility_kept (append_batch c n now) number later p (omega (arith, f0))
              (omega (arith, f2))
            ∙ rw (f1, f3)
                (find_window-append c.grant_window later number c.released_number
                  c.release_batches_pruned_through 0 _ c.release_batches v.covered (omega arith) hi)
            ∙ sym (release_eligibility_kept c number later p hi (omega arith))
      ]

  append_batch_fresh :
      (number : ℕ)
      → c.release_batches_pruned_through ≤ c.released_number
      → c.released_number < number
      → number ≤ c.released_number + n
      → release_eligibility (append_batch c n now) number now
        ≡ record { status = eligible; released_at = whole_second now }
  append_batch_fresh number q lo hi =
      let (f0, f1, f2, f3) = append_batch_fields in
      let found =
        find_window-append_last c.grant_window now number c.released_number
          c.release_batches_pruned_through 0 fresh c.release_batches v.covered lo (omega arith)
          hi in
      release_eligibility_kept (append_batch c n now) number now (omega arith) (omega (arith, f0))
        (omega (arith, f2))
      ∙ rw (f1, f3) (found ∙ window_fresh c.grant_window now fresh refl)
    where
      fresh : QueueReleaseBatch
      fresh = record {
        first_number = c.released_number + 1;
        last_number = c.released_number + n;
        released_at = whole_second now;
      }

module _ (c d : QueueCore) (n : ℕ) (budgets : BudgetAggregate) (now : ℕ) (v : IsConsistent c)
    (done : release_batch c budgets now ≡ ok (d, n)) where
  -- A number that was released before keeps its status and, while it is eligible, its window, seen
  -- from the time of the batch or any later one.
  pub release_batch-KeepsWindow :
      (later number : ℕ)
      → now ≤ later
      → 0 < number
      → number ≤ c.released_number
      → KeepsWindow c d later number
  release_batch-KeepsWindow later number h pos hi =
      elim (release_batch_cases c budgets now v d n done) [
        | inl (_, e) ↦ rw e (prune-KeepsWindow c now later number v h pos hi)
        | inr (p, room, fwd, e) ↦
            let w = append_batch-IsConsistent c n now v p room fwd in
            let same = append_batch-eligibility c n now v p room later number pos hi in
            let f = append_batch_fields c n now v p room in
            rw e (
              rw (← same) (
                prune-KeepsWindow (append_batch c n now) now later number w h pos
                  (omega (arith, f.0))))
      ]

  -- Each number of the new batch is eligible at once, from the whole second of the release on.
  pub release_batch_fresh :
      (number : ℕ)
      → c.released_number < number
      → number ≤ d.released_number
      → release_eligibility d number now
        ≡ record { status = eligible; released_at = whole_second now }
  release_batch_fresh number lo hi = elim (release_batch_cases c budgets now v d n done) [
    | inl (_, e) ↦ absurd (omega (arith, ap QueueCore.released_number e, (prune-same c now).0))
    | inr (p, room, fwd, e) ↦
        let w = append_batch-IsConsistent c n now v p room fwd in
        let f = append_batch_fields c n now v p room in
        let top : number ≤ (append_batch c n now).released_number =
          omega
            (arith, ap QueueCore.released_number e, (prune-same (append_batch c n now) now).0) in
        let new =
          append_batch_fresh c n now v p room number (Covers-le _ _ 0 c.release_batches v.covered)
            lo (omega (arith, f.0)) in
        let kept =
          prune-KeepsWindow (append_batch c n now) now now number w (omega arith) (omega arith)
            top in
        rw e (observed_eligible _ _ (kept ∙ ap observed new))
  ]
