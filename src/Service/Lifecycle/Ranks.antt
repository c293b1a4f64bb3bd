-- ===== src/Service/Lifecycle/Ranks.antt =====
-- The states of a service only go forward.
use realm_mesh.Prelude.{
  ◌+◌, ◌≤◌, ◌≡◌, List, [], ◌∷◌, Bool, true, false, ◌&&◌, not, if◌then◌else◌, Option, none, some,
  arith, either,
}
use realm_mesh.Service.Lifecycle.{
  ServiceState, place, same_state, is_valid_transition, compare_exchange, transition_turn, Turn,
  moved, run,
}

valid_forward :
    (current next : ServiceState)
    → is_valid_transition current next ≡ true
    → place current + 1 ≤ place next
unfolding is_valid_transition
valid_forward current next e = ground arith

same_state_eq : (a b : ServiceState) → same_state a b ≡ true → place a ≡ place b
unfolding same_state
same_state_eq a b e = ground arith

-- Between two states of the shared one with `n` exchanges.
abbrev Forward : ServiceState → Option Bool × ServiceState × ServiceState → Type 0
Forward shared (answer, seen, now) = moved answer + place shared ≤ place now

turn-Forward :
    (fails : Bool) (expected next shared : ServiceState)
    → Forward shared (transition_turn fails expected next shared)
unfolding transition_turn compare_exchange
turn-Forward fails expected next shared =
    either (Forward shared) (is_valid_transition expected next) _ (some false, expected, shared)
      (λ valid.
        either
          (λ (x : Bool × ServiceState × ServiceState).
            Forward shared (if x.0 then some true else none, x.1, x.2))
          (same_state shared expected && not fails) (true, expected, next) (false, shared, shared)
          (λ exchanged.
            let same = same_state_eq shared expected (ground (arith, exchanged)) in
            omega (arith, valid_forward expected next valid, same))
          (λ failed. omega arith))
      (λ refused. omega arith)

place_bound : (s : ServiceState) → place s ≤ 4
place_bound s = ground arith

run-place :
    (turns : List Turn) (shared : ServiceState)
    → (run turns shared).0 + place shared ≤ place (run turns shared).1
unfolding run
run-place [] shared = omega arith
run-place (t ∷ turns) shared =
    let x = transition_turn t.fails t.expected t.next shared in
    omega (arith, turn-Forward t.fails t.expected t.next shared, run-place turns x.2)

-- However the turns of the threads that call `transition_to` follow each other, and whatever fails
-- without a cause, each answer of true moved the service forward: those answers and the place of the
-- first state are at most the place of the last one, so that there are at most four.
pub run_forward :
    (turns : List Turn) (shared : ServiceState)
    → (((run turns shared).0 + place shared) ≤ place (run turns shared).1)
      × ((run turns shared).0 ≤ 4)
run_forward turns shared = (
  run-place turns shared,
  omega (arith, run-place turns shared, place_bound (run turns shared).1),
)
