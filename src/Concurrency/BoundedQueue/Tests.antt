-- ===== src/Concurrency/BoundedQueue/Tests.antt =====
-- Calls of a queue of two places, and the theorem at a concrete input.
use realm_mesh.Prelude.{ℕ, ◌≤◌, ◌≡◌, List, [], ◌∷◌, ◌++◌, length, arith}
use realm_mesh.Concurrency.BoundedQueue.{BoundedQueue}
use realm_mesh.Concurrency.BoundedQueue.Order.{QueueCall, pushes, pops, drains, run, run_in_order}

abbrev small : BoundedQueue ℕ
small = record { capacity = 2; queue = [] }

abbrev calls : List (QueueCall ℕ)
calls = pushes 1 ∷ pushes 2 ∷ pushes 3 ∷ pops ∷ pushes 4 ∷ drains 5 ∷ []

run_in_order_example :
    ((run small calls).2 ++ (run small calls).0.queue ≡ [] ++ (run small calls).1)
    × ((run small calls).0.capacity ≡ 2)
    × (length (run small calls).0.queue ≤ (run small calls).0.capacity)
run_in_order_example = run_in_order small calls (omega arith)
