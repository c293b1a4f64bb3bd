-- ===== src/Queue/Core.antt =====
-- game/queue/src/queue_core.cpp: the two watermarks, the ledger of release batches and the budgets.
-- A time point is a count of nanoseconds since the epoch, not before it and below the range of its
-- representation; a configured window is a count of seconds.
pub mod Ledger
pub mod Release
mod Tests
pub mod Budgets
pub mod Recovery
pub mod Evolution
pub mod Windows
pub mod Eligibility
use realm_mesh.Prelude.{
  ℕ, ◌+◌, ◌*◌, ◌/◌, min, List, [], ◌∷◌, ◌++◌, Bool, false, ◌||◌, not, ltb, leb, ◌==◌, if◌then◌else◌,
  Result, ok, err, ◌>>=◌, ◌>>◌, throw_if, invalid_argument, runtime_error, add64, sub64, Option,
  none, some,
}

-- Nanoseconds in a second: the tick of `system_clock`.
abbrev pub second : ℕ
second = 1_000_000_000

abbrev pub jws_clock_leeway : ℕ
jws_clock_leeway = 60

abbrev pub admission_grant_max_window : ℕ
admission_grant_max_window = 600

pub record GatewayBudget : Type 0 where
  pub conn_free : ℕ
  pub fetch_free : ℕ

pub record RealmBudget : Type 0 where
  pub conn_free : ℕ

pub record BudgetAggregate : Type 0 where
  pub gateway_admission : ℕ
  pub realm_connections : ℕ

pub record QueueReleaseBatch : Type 0 where
  pub first_number : ℕ
  pub last_number : ℕ
  pub released_at : ℕ

pub record QueueSnapshot : Type 0 where
  pub released_number : ℕ
  pub next_number : ℕ
  pub admit_rate : ℕ
  pub release_batches_pruned_through : ℕ
  pub release_batches : List QueueReleaseBatch

pub data QueueReleaseStatus : Type 0 where
  not_released eligible expired : QueueReleaseStatus

-- `released_at` is 0, the epoch, where the code leaves the member at its default.
pub record QueueReleaseEligibility : Type 0 where
  pub status : QueueReleaseStatus
  pub released_at : ℕ

pub record QueueCore : Type 0 where
  pub release_step : ℕ
  pub rate_window : ℕ
  pub grant_window : ℕ
  pub released_number : ℕ
  pub next_number : ℕ
  pub release_batches_pruned_through : ℕ
  pub release_batches : List QueueReleaseBatch

-- The time is before that of the batch before, if there is one.
abbrev pub is_before : ℕ → Option ℕ → Bool
is_before time none = false
is_before time (some previous) = ltb time previous

-- The loop of `validate`: the next expected number, and the time of the batch before, if any.
pub validate_ledger : ℕ → ℕ → Option ℕ → List QueueReleaseBatch → Result ℕ
validate_ledger released expected previous [] = ok expected
validate_ledger released expected previous (b ∷ bs) =
    let rest = validate_ledger released (add64 b.last_number 1) (some b.released_at) bs in
    if not (b.first_number == expected)
      || ltb b.last_number b.first_number
      || ltb released b.last_number
      || is_before b.released_at previous
    then err invalid_argument
    else rest

pub validate : QueueSnapshot → Result (Unit {0})
unfolding validate_ledger
validate s = do
  throw_if
      (leb s.next_number s.released_number
        || ltb s.released_number s.release_batches_pruned_through)
      invalid_argument
  expected ←
      validate_ledger s.released_number (add64 s.release_batches_pruned_through 1) none
        s.release_batches
  throw_if (not (expected == add64 s.released_number 1)) invalid_argument

pub sum_gateways : ℕ → List GatewayBudget → ℕ
sum_gateways acc [] = acc
sum_gateways acc (g ∷ gs) = sum_gateways (add64 acc (min g.conn_free g.fetch_free)) gs

pub sum_realms : ℕ → List RealmBudget → ℕ
sum_realms acc [] = acc
sum_realms acc (r ∷ rs) = sum_realms (add64 acc r.conn_free) rs

pub aggregate_budgets : List GatewayBudget → List RealmBudget → BudgetAggregate
unfolding sum_gateways sum_realms
aggregate_budgets gateways realms = record {
  gateway_admission = sum_gateways 0 gateways;
  realm_connections = sum_realms 0 realms;
}

-- The constructor. The windows that it refuses include the negative ones, which are not represented.
pub construct : ℕ → ℕ → ℕ → Result QueueCore
construct release_step rate_window grant_window = do
  throw_if (rate_window == 0) invalid_argument
  throw_if (grant_window == 0 || ltb admission_grant_max_window grant_window) invalid_argument
  ok (record {
    release_step = release_step;
    rate_window = rate_window;
    grant_window = grant_window;
    released_number = 0;
    next_number = 1;
    release_batches_pruned_through = 0;
    release_batches = [];
  })

-- The loop of `admit_rate`; `released_at <= now - rate_window` without the subtraction.
pub recent_total : ℕ → ℕ → ℕ → List QueueReleaseBatch → ℕ
recent_total window now total [] = total
recent_total window now total (b ∷ bs) =
    recent_total window now
      (if leb (b.released_at + window) now
        then total
        else add64 total (add64 (sub64 b.last_number b.first_number) 1))
      bs

pub admit_rate : QueueCore → ℕ → ℕ
unfolding recent_total
admit_rate c now = recent_total (c.rate_window * second) now 0 c.release_batches / c.rate_window

-- `now > released_at + grant_window + jws_clock_leeway`
abbrev pub is_past : ℕ → ℕ → QueueReleaseBatch → Bool
is_past grant_window now b =
    ltb (b.released_at + grant_window * second + jws_clock_leeway * second) now

pub prune_from : ℕ → ℕ → ℕ → List QueueReleaseBatch → ℕ × List QueueReleaseBatch
prune_from grant_window now pruned [] = (pruned, [])
prune_from grant_window now pruned (b ∷ bs) =
    let rest = prune_from grant_window now b.last_number bs in
    if is_past grant_window now b then rest else (pruned, b ∷ bs)

pub prune_release_batches : QueueCore → ℕ → QueueCore
unfolding prune_from
prune_release_batches c now =
    let (pruned, bs) =
      prune_from c.grant_window now c.release_batches_pruned_through c.release_batches in
    record c { release_batches_pruned_through = pruned; release_batches = bs }

pub last_released_at : List QueueReleaseBatch → Option ℕ
last_released_at [] = none
last_released_at (b ∷ []) = some b.released_at
last_released_at (b ∷ c ∷ bs) = last_released_at (c ∷ bs)

-- The time of a release, rounded down to whole seconds.
abbrev pub whole_second : ℕ → ℕ
whole_second now = now / second * second

-- The size of the next batch.
pub batch_size : QueueCore → BudgetAggregate → ℕ
batch_size c budgets =
    min (min (min budgets.gateway_admission budgets.realm_connections) c.release_step)
      (sub64 (sub64 c.next_number 1) c.released_number)

pub append_batch : QueueCore → ℕ → ℕ → QueueCore
append_batch c batch now = record c {
  released_number = add64 c.released_number batch;
  release_batches =
      c.release_batches
      ++ record {
        first_number = add64 c.released_number 1;
        last_number = add64 c.released_number batch;
        released_at = whole_second now;
      }
        ∷ [];
}

unfoldable pub release_batch : QueueCore → BudgetAggregate → ℕ → Result (QueueCore × ℕ)
unfolding batch_size prune_release_batches last_released_at append_batch
release_batch c budgets now =
    let batch = batch_size c budgets in
    if batch == 0
    then ok (prune_release_batches c now, batch)
    else if is_before (whole_second now) (last_released_at c.release_batches)
    then err runtime_error
    else ok (prune_release_batches (append_batch c batch now) now, batch)

abbrev pub no_window : QueueReleaseStatus → QueueReleaseEligibility
no_window s = record { status = s; released_at = 0 }

-- The loop of `release_eligibility`.
pub find_window : ℕ → ℕ → ℕ → List QueueReleaseBatch → QueueReleaseEligibility
find_window grant_window now number [] = no_window expired
find_window grant_window now number (b ∷ bs) =
    let rest = find_window grant_window now number bs in
    if ltb number b.first_number
    then no_window expired
    else if leb number b.last_number
    then record {
      status = if is_past grant_window now b then expired else eligible;
      released_at = b.released_at;
    }
    else rest

unfoldable pub release_eligibility : QueueCore → ℕ → ℕ → QueueReleaseEligibility
unfolding find_window
release_eligibility c number now =
    if number == 0 || ltb c.released_number number
    then no_window not_released
    else if leb number c.release_batches_pruned_through
    then no_window expired
    else find_window c.grant_window now number c.release_batches

pub has_future_release : ℕ → List QueueReleaseBatch → Bool
has_future_release now [] = false
has_future_release now (b ∷ bs) =
    ltb (now + jws_clock_leeway * second) b.released_at || has_future_release now bs

pub load_snapshot : QueueCore → QueueSnapshot → QueueCore
load_snapshot c s = record c {
  released_number = s.released_number;
  next_number = s.next_number;
  release_batches_pruned_through = s.release_batches_pruned_through;
  release_batches = s.release_batches;
}

pub restore : QueueCore → QueueSnapshot → ℕ → Result QueueCore
unfolding validate has_future_release prune_release_batches load_snapshot
restore c s now = do
  validate s
  throw_if (has_future_release now s.release_batches) invalid_argument
  ok (prune_release_batches (load_snapshot c s) now)

pub snapshot : QueueCore → ℕ → QueueSnapshot
unfolding admit_rate
snapshot c now = record {
  released_number = c.released_number;
  next_number = c.next_number;
  admit_rate = admit_rate c now;
  release_batches_pruned_through = c.release_batches_pruned_through;
  release_batches = c.release_batches;
}
