-- ===== src/Service/Lifecycle/Tests.antt =====
-- Two threads that both ask a service to stop.
use realm_mesh.Prelude.{◌+◌, ◌≤◌, ◌≡◌, refl, List, [], ◌∷◌, true, false}
use realm_mesh.Service.Lifecycle.{ready, stopping, stopped, place, Turn, run}
use realm_mesh.Service.Lifecycle.Ranks.{run_forward}

-- The first fails without a cause, the second exchanges, and the first reads that it was late.
abbrev two_threads : List Turn
two_threads =
    record { expected = ready; next = stopping; fails = true }
    ∷ record { expected = ready; next = stopping; fails = false }
    ∷ record { expected = ready; next = stopping; fails = false }
    ∷ record { expected = stopping; next = stopping; fails = false }
    ∷ record { expected = stopping; next = stopped; fails = false }
    ∷ []

two_threads-run : run two_threads ready ≡ (2, stopped)
unfolding run
two_threads-run = refl

run_forward_example :
    (((run two_threads ready).0 + place ready) ≤ place (run two_threads ready).1)
    × ((run two_threads ready).0 ≤ 4)
run_forward_example = run_forward two_threads ready
