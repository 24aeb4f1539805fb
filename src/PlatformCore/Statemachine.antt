-- ===== src/PlatformCore/Statemachine.antt =====
-- services/platform-core/internal/orchestrator/statemachine.go and the task states of
-- internal/store/store.go.
pub mod Graph
use aegisbastion.Common.{ℕ, ◌≡◌, Bool, true, false, List, [], ◌∷◌, any, ◌==◌, arith}

pub data TaskState : Type 0 where
  pending validating queued dispatched running reported validated completed : TaskState
  rejected_unauthorized expired failed dead killed cancelled : TaskState

-- A number for each state.
unfoldable pub index : TaskState → ℕ
index pending = 0
index validating = 1
index queued = 2
index dispatched = 3
index running = 4
index reported = 5
index validated = 6
index completed = 7
index rejected_unauthorized = 8
index expired = 9
index failed = 10
index dead = 11
index killed = 12
index cancelled = 13

-- Equality of the states' names.
unfoldable pub state_eq : TaskState → TaskState → Bool
unfolding index
state_eq s t = index s == index t

unfoldable pub legal_transitions : TaskState → List TaskState
legal_transitions pending = validating ∷ cancelled ∷ killed ∷ []
legal_transitions validating = queued ∷ rejected_unauthorized ∷ cancelled ∷ killed ∷ []
legal_transitions queued = dispatched ∷ rejected_unauthorized ∷ cancelled ∷ expired ∷ killed ∷ []
legal_transitions dispatched = running ∷ queued ∷ reported ∷ killed ∷ cancelled ∷ []
legal_transitions running = reported ∷ queued ∷ failed ∷ killed ∷ []
legal_transitions reported = validated ∷ failed ∷ rejected_unauthorized ∷ killed ∷ []
legal_transitions validated = completed ∷ killed ∷ []
legal_transitions failed = queued ∷ dead ∷ killed ∷ []
legal_transitions _ = []

unfoldable pub can_transition : TaskState → TaskState → Bool
unfolding legal_transitions state_eq any
can_transition from to = any (λ t. state_eq t to) (legal_transitions from)

-- `TerminalStates`.
unfoldable pub is_terminal : TaskState → Bool
is_terminal completed = true
is_terminal rejected_unauthorized = true
is_terminal expired = true
is_terminal dead = true
is_terminal killed = true
is_terminal cancelled = true
is_terminal _ = false

-- A state of `index` equality is the same state.
pub state_eq_sound : (s t : TaskState) → state_eq s t ≡ true → s ≡ t
unfolding state_eq index
state_eq_sound s t h = ground arith
