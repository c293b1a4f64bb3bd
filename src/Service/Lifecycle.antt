-- ===== src/Service/Lifecycle.antt =====
-- framework/service/src/service_lifecycle.cpp: the states of a service. Threads share the state; what they
-- do is a sequence of reads and of calls of compare_exchange_weak, which may fail without a cause.
pub mod Ranks
mod Tests
use realm_mesh.Prelude.{
  ℕ, ◌+◌, List, [], ◌∷◌, Bool, true, false, ◌&&◌, ◌||◌, not, if◌then◌else◌, Option, none, some,
}

pub data ServiceState : Type 0 where
  created initializing ready stopping stopped : ServiceState

-- The place of a state in the enumeration.
abbrev pub place : ServiceState → ℕ
place created = 0
place initializing = 1
place ready = 2
place stopping = 3
place stopped = 4

unfoldable pub same_state : ServiceState → ServiceState → Bool
same_state created next = elim next [ created ↦ true | _ ↦ false ]
same_state initializing next = elim next [ initializing ↦ true | _ ↦ false ]
same_state ready next = elim next [ ready ↦ true | _ ↦ false ]
same_state stopping next = elim next [ stopping ↦ true | _ ↦ false ]
same_state stopped next = elim next [ stopped ↦ true | _ ↦ false ]

unfoldable pub is_valid_transition : ServiceState → ServiceState → Bool
unfolding same_state
is_valid_transition created next = same_state next initializing
is_valid_transition initializing next = same_state next ready || same_state next stopping
is_valid_transition ready next = same_state next stopping
is_valid_transition stopping next = same_state next stopped
is_valid_transition stopped next = false

-- compare_exchange_weak on the shared state: whether it exchanged, what the caller then expects, and the
-- shared state. With `fails` it fails although the states are the same.
unfoldable pub compare_exchange :
    Bool → ServiceState → ServiceState → ServiceState → Bool × ServiceState × ServiceState
unfolding same_state
compare_exchange fails expected next shared =
    if same_state shared expected && not fails
    then (true, expected, next)
    else (false, shared, shared)

-- One turn of the loop of `transition_to`: the answer if it ends, what is expected, the shared state.
unfoldable pub transition_turn :
    Bool → ServiceState → ServiceState → ServiceState → Option Bool × ServiceState × ServiceState
unfolding is_valid_transition compare_exchange
transition_turn fails expected next shared =
    if is_valid_transition expected next
    then (let (exchanged, seen, now) = compare_exchange fails expected next shared in
        (if exchanged then some true else none, seen, now))
    else (some false, expected, shared)

-- A thread that is in the loop: what it expects and what it asks for.
pub record Turn : Type 0 where
  pub expected : ServiceState
  pub next : ServiceState
  pub fails : Bool

abbrev pub moved : Option Bool → ℕ
moved none = 0
moved (some false) = 0
moved (some true) = 1

-- The turns of the threads in any order: how many were answered with true, and the state.
unfoldable pub run : List Turn → ServiceState → ℕ × ServiceState
unfolding transition_turn
run [] shared = (0, shared)
run (t ∷ turns) shared =
    let (answer, seen, now) = transition_turn t.fails t.expected t.next shared in
    let (count, last) = run turns now in (moved answer + count, last)
