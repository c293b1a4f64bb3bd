-- ===== src/Queue/Core/Eligibility.antt =====
-- The loop of `release_eligibility` over the ledger of queue_core.cpp.
use realm_mesh.Prelude.{
  ℕ, ◌≤◌, ◌<◌, ◌≡◌, refl, sym, ◌∙◌, ap, subst, ◌⊎◌, inl, inr, List, [], ◌∷◌, ◌++◌, false, true,
  arith, Bool-cases, leb, if◌then◌else◌,
}
use native.Mathlib.Decide.{dec_le}
use realm_mesh.Queue.Core.{
  QueueReleaseBatch, QueueReleaseEligibility, eligible, expired, is_past, prune_from, find_window,
  release_eligibility, QueueCore,
}
use realm_mesh.Queue.Core.Ledger.{Covers}

-- The window that the batch gives a number, as of `now`.
abbrev pub window : ℕ → ℕ → QueueReleaseBatch → QueueReleaseEligibility
window grant_window now b = record {
  status = if is_past grant_window now b then expired else eligible;
  released_at = b.released_at;
}

-- The batch is one of the list.
abbrev pub IsAmong : QueueReleaseBatch → List QueueReleaseBatch → Type 0
IsAmong b [] = false ≡ true
IsAmong b (x ∷ bs) = (b ≡ x) ⊎ IsAmong b bs

-- In a ledger each number after the pruned ones is in one batch, and has that batch's window.
pub find_window-Covers :
    (g now n r p s : ℕ) (bs : List QueueReleaseBatch)
    → Covers r p s bs
    → p < n
    → n ≤ r
    → (b : QueueReleaseBatch) × IsAmong b bs
      × (b.first_number ≤ n)
      × (n ≤ b.last_number)
      × (find_window g now n bs ≡ window g now b)
unfolding find_window
find_window-Covers g now n r p s [] h lo hi = absurd (omega arith)
find_window-Covers g now n r p s (b ∷ bs) (h0, h1, h2, h3, h4) lo hi =
    elim (Bool-cases (leb n b.last_number)) [
      | inl e ↦ (b, inl refl, omega arith, ground arith, ground arith)
      | inr e ↦
          let (x, m, l, u, w) =
            find_window-Covers g now n r b.last_number b.released_at bs h4 (ground arith) hi in
          (x, inr m, l, u, ground arith)
    ]

-- A batch at the end changes no window of the numbers before it.
pub find_window-append :
    (g now n r p s : ℕ) (x : QueueReleaseBatch) (bs : List QueueReleaseBatch)
    → Covers r p s bs
    → p < n
    → n ≤ r
    → find_window g now n (bs ++ x ∷ []) ≡ find_window g now n bs
unfolding find_window
find_window-append g now n r p s x [] h lo hi = absurd (omega arith)
find_window-append g now n r p s x (b ∷ bs) (h0, h1, h2, h3, h4) lo hi =
    elim (Bool-cases (leb n b.last_number)) [
      | inl e ↦ ground arith
      | inr e ↦ ground (arith, find_window-append g now n r b.last_number b.released_at x bs h4)
    ]

-- The numbers of a batch at the end have its window.
pub find_window-append_last :
    (g now n r p s : ℕ) (x : QueueReleaseBatch) (bs : List QueueReleaseBatch)
    → Covers r p s bs
    → r < n
    → x.first_number ≤ n
    → n ≤ x.last_number
    → find_window g now n (bs ++ x ∷ []) ≡ window g now x
unfolding find_window
find_window-append_last g now n r p s x [] h lo a b = ground arith
find_window-append_last g now n r p s x (y ∷ bs) (h0, h1, h2, h3, h4) lo a b =
    ground (arith, find_window-append_last g now n r y.last_number y.released_at x bs h4)

-- Pruning as of `now` keeps the windows of the numbers that it keeps, and gives up only numbers that
-- have expired, by now and by any later time.
abbrev pub PruneKeeps : ℕ → ℕ → ℕ → List QueueReleaseBatch → ℕ × List QueueReleaseBatch → Type 0
PruneKeeps g later n bs (p, kept) =
    ((p < n) × (find_window g later n kept ≡ find_window g later n bs))
    ⊎ ((n ≤ p) × (QueueReleaseEligibility.status (find_window g later n bs) ≡ expired))

pub prune_from-le :
    (g now r p s : ℕ) (bs : List QueueReleaseBatch)
    → Covers r p s bs
    → p ≤ (prune_from g now p bs).0
unfolding prune_from
prune_from-le g now r p s [] k = omega arith
prune_from-le g now r p s (b ∷ bs) (k0, k1, k2, k3, k4) =
    ground (arith, prune_from-le g now r b.last_number b.released_at bs k4)

is_past-later :
    (g now later : ℕ) (b : QueueReleaseBatch)
    → now ≤ later
    → is_past g now b ≡ true
    → is_past g later b ≡ true
is_past-later g now later b h e = ground arith

find_window-first :
    (g later n : ℕ) (b : QueueReleaseBatch) (bs : List QueueReleaseBatch)
    → b.first_number ≤ n
    → n ≤ b.last_number
    → find_window g later n (b ∷ bs) ≡ window g later b
unfolding find_window
find_window-first g later n b bs lo hi = ground arith

find_window-rest :
    (g later n : ℕ) (b : QueueReleaseBatch) (bs : List QueueReleaseBatch)
    → b.first_number ≤ n
    → b.last_number < n
    → find_window g later n (b ∷ bs) ≡ find_window g later n bs
unfolding find_window
find_window-rest g later n b bs lo hi = ground arith

-- A batch of a ledger gives its window to each number that it holds.
pub find_window-IsAmong :
    (g now n r p s : ℕ) (x : QueueReleaseBatch) (bs : List QueueReleaseBatch)
    → Covers r p s bs
    → IsAmong x bs
    → x.first_number ≤ n
    → n ≤ x.last_number
    → (p < n) × (n ≤ r) × (find_window g now n bs ≡ window g now x)
find_window-IsAmong g now n r p s x [] h m lo hi = cc
find_window-IsAmong g now n r p s x (b ∷ bs) (h0, h1, h2, h3, h4) (inl e) lo hi =
    let first : b.first_number ≤ n = subst (λ y. y.first_number ≤ n) e lo in
    let last : n ≤ b.last_number = subst (λ y. n ≤ y.last_number) e hi in
    (
      omega arith,
      omega arith,
      find_window-first g now n b bs first last ∙ ap (window g now) (sym e),
    )
find_window-IsAmong g now n r p s x (b ∷ bs) (h0, h1, h2, h3, h4) (inr m) lo hi =
    let (below, above, found) =
      find_window-IsAmong g now n r b.last_number b.released_at x bs h4 m lo hi in
    (omega arith, above, find_window-rest g now n b bs (omega arith) below ∙ found)

pub prune_from-PruneKeeps :
    (g now later n r p s : ℕ) (bs : List QueueReleaseBatch)
    → now ≤ later
    → Covers r p s bs
    → p < n
    → PruneKeeps g later n bs (prune_from g now p bs)
unfolding prune_from
prune_from-PruneKeeps g now later n r p s [] h k lo = inl (lo, refl)
prune_from-PruneKeeps g now later n r p s (b ∷ bs) h (k0, k1, k2, k3, k4) lo =
    elim (Bool-cases (is_past g now b)) [
      | inr e ↦ rw e (inl (lo, refl))
      | inl e ↦ rw e (elim (dec_le n b.last_number) [
        | yes hit ↦ inr (
          omega (arith, prune_from-le g now r b.last_number b.released_at bs k4),
          rw (find_window-first g later n b bs (omega arith) hit)
              (rw (is_past-later g now later b h e) refl),
        )
        | no miss ↦ rw (find_window-rest g later n b bs (omega arith) (omega arith)) (
            prune_from-PruneKeeps g now later n r b.last_number b.released_at bs h k4 (omega arith))
      ])
    ]

-- The time of the release of a number is the same whenever it is asked for.
find_window_time :
    (g n now later : ℕ) (bs : List QueueReleaseBatch)
    → (find_window g now n bs).status ≡ eligible
    → (find_window g later n bs).status ≡ eligible
    → (find_window g now n bs).released_at ≡ (find_window g later n bs).released_at
unfolding find_window
find_window_time g n now later [] e f = refl
find_window_time g n now later (b ∷ bs) e f = ground (arith, find_window_time g n now later bs)

pub release_time :
    (c : QueueCore) (n now later : ℕ)
    → (release_eligibility c n now).status ≡ eligible
    → (release_eligibility c n later).status ≡ eligible
    → (release_eligibility c n now).released_at ≡ (release_eligibility c n later).released_at
unfolding release_eligibility
release_time c n now later e f =
    ground (arith, find_window_time c.grant_window n now later c.release_batches)
