-- ===== src/Queue/Core/Budgets.antt =====
-- The sums of queue_core.cpp: the aggregated budgets and the measured rate.
use realm_mesh.Prelude.{
  ℕ, ◌+◌, ◌-◌, ◌*◌, ◌/◌, ◌^◌, ◌≤◌, ◌<◌, min, ◌≡◌, List, [], ◌∷◌, arith, IsU64, add64, sub64, leb,
  if◌then◌else◌,
}
use native.Mathlib.Nat.{zero-add}
use realm_mesh.Queue.Core.{
  QueueCore, QueueReleaseBatch, GatewayBudget, RealmBudget, aggregate_budgets, sum_gateways,
  sum_realms, admit_rate, recent_total, second,
}
use realm_mesh.Queue.Core.Ledger.{Covers, IsConsistent}

-- The budgets as numbers without a bound.
abbrev pub gateway_total : List GatewayBudget → ℕ
gateway_total [] = 0
gateway_total (g ∷ gs) = min g.conn_free g.fetch_free + gateway_total gs

abbrev pub realm_total : List RealmBudget → ℕ
realm_total [] = 0
realm_total (r ∷ rs) = r.conn_free + realm_total rs

sum_gateways_eq :
    (acc : ℕ) (gs : List GatewayBudget)
    → acc + gateway_total gs < 2 ^ 64
    → sum_gateways acc gs ≡ acc + gateway_total gs
unfolding sum_gateways
sum_gateways_eq acc [] h = omega arith
sum_gateways_eq acc (g ∷ gs) h =
    omega (arith, sum_gateways_eq (add64 acc (min g.conn_free g.fetch_free)) gs (omega arith))

sum_realms_eq :
    (acc : ℕ) (rs : List RealmBudget)
    → acc + realm_total rs < 2 ^ 64
    → sum_realms acc rs ≡ acc + realm_total rs
unfolding sum_realms
sum_realms_eq acc [] h = omega arith
sum_realms_eq acc (r ∷ rs) h = omega (arith, sum_realms_eq (add64 acc r.conn_free) rs (omega arith))

-- Budgets whose sums fit `uint64_t` are aggregated to the sum over the gateways of the smaller of
-- the two budgets of each, and to the sum of the connections that the realms have free.
pub aggregate_budgets_lem :
    (gateways : List GatewayBudget) (realms : List RealmBudget)
    → IsU64 (gateway_total gateways)
    → IsU64 (realm_total realms)
    → aggregate_budgets gateways realms ≡ record {
      gateway_admission = gateway_total gateways;
      realm_connections = realm_total realms;
    }
unfolding aggregate_budgets
aggregate_budgets_lem gateways realms h k =
    ground (arith, sum_gateways_eq 0 gateways, sum_realms_eq 0 realms)

-- The numbers of the batches that a window of `window` nanoseconds before `now` holds.
abbrev pub numbers_since : ℕ → ℕ → List QueueReleaseBatch → ℕ
numbers_since window now [] = 0
numbers_since window now (b ∷ bs) =
    (if leb (b.released_at + window) now then 0 else b.last_number - b.first_number + 1)
    + numbers_since window now bs

recent_total_eq :
    (window now total r p s : ℕ) (bs : List QueueReleaseBatch)
    → Covers r p s bs
    → total + (r - p) < 2 ^ 64
    → r < 2 ^ 64
    → (recent_total window now total bs ≡ total + numbers_since window now bs)
unfolding recent_total
recent_total_eq window now total r p s [] h k l = omega arith
recent_total_eq window now total r p s (b ∷ bs) (h0, h1, h2, h3, h4) k l =
    let size : add64 (sub64 b.last_number b.first_number) 1 ≡ b.last_number - b.first_number + 1 =
      omega arith in
    ground (
      arith,
      size,
      recent_total_eq window now total r b.last_number b.released_at bs h4,
      recent_total_eq window now (add64 total (b.last_number - b.first_number + 1)) r b.last_number
          b.released_at bs h4,
    )

numbers_since-le :
    (window now r p s : ℕ) (bs : List QueueReleaseBatch)
    → Covers r p s bs
    → numbers_since window now bs ≤ r - p
numbers_since-le window now r p s [] h = omega arith
numbers_since-le window now r p s (b ∷ bs) (h0, h1, h2, h3, h4) =
    ground (arith, numbers_since-le window now r b.last_number b.released_at bs h4)

-- The rate of a consistent queue is the number of releases in the last `rate_window` seconds, which
-- are no more than were released and not pruned, divided by these seconds and rounded down.
pub admit_rate_lem :
    (c : QueueCore) (now : ℕ)
    → IsConsistent c
    → (admit_rate c now
        ≡ numbers_since (c.rate_window * second) now c.release_batches / c.rate_window)
      × (numbers_since (c.rate_window * second) now c.release_batches
          ≤ c.released_number - c.release_batches_pruned_through)
unfolding admit_rate
admit_rate_lem c now v =
    let sum =
      recent_total_eq (c.rate_window * second) now 0 c.released_number
        c.release_batches_pruned_through 0 c.release_batches v.covered
        (omega (arith, v.behind, v.in_range)) (omega (arith, v.behind, v.in_range)) in
    (rw sum (rw zero-add), numbers_since-le _ now c.released_number _ 0 c.release_batches v.covered)
