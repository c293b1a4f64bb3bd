-- ===== src/Concurrency/BoundedQueue.antt =====
-- framework/concurrency/include/realmmesh/concurrency/bounded_queue.hpp: a queue with a bound. Each
-- operation holds the lock, so what the threads do is a sequence of operations.
pub mod Order
mod Tests
use realm_mesh.Prelude.{
  ℕ, List, [], ◌∷◌, ◌++◌, Bool, true, false, leb, ◌==◌, if◌then◌else◌, Option, none, some, length,
  take, drop, min, Result, ok, invalid_argument, throw_if, ◌>>◌,
}

pub record BoundedQueue (V : Type 0) : Type 0 where
  pub capacity : ℕ
  pub queue : List V

pub construct : {V : Type 0} → ℕ → Result (BoundedQueue V)
construct capacity = do
  throw_if (capacity == 0) invalid_argument
  ok (record { capacity = capacity; queue = [] })

module _ {V : Type 0} where
  pub try_push : BoundedQueue V → V → BoundedQueue V × Bool
  try_push q value =
      if leb q.capacity (length q.queue)
      then (q, false)
      else (record q { queue = q.queue ++ value ∷ [] }, true)

  abbrev pub pop_of : BoundedQueue V → List V → BoundedQueue V × Option V
  pop_of q [] = (q, none)
  pop_of q (value ∷ rest) = (record q { queue = rest }, some value)

  pub try_pop : BoundedQueue V → BoundedQueue V × Option V
  try_pop q = pop_of q q.queue

  -- The loop of `drain` that moves the values in front.
  pub drain : BoundedQueue V → ℕ → BoundedQueue V × List V
  drain q max_items =
      let count = min max_items (length q.queue) in
      (record q { queue = drop count q.queue }, take count q.queue)

  pub size : BoundedQueue V → ℕ
  size q = length q.queue
