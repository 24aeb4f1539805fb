-- ===== src/PlatformCore/Statemachine/Graph.antt =====
-- statemachine.go: what the table of moves allows over a task's life.
use aegisbastion.Common.{
  ◌≡◌, ◌↔◌, ◌⊎◌, inl, inr, refl, Bool, true, false, any, arith, sym, ◌∙◌, Bool-cases,
}
use mathlib.Core.Bool.{true≢false}
use aegisbastion.PlatformCore.Statemachine.{
  TaskState, pending, queued, dispatched, running, reported, validated, completed, failed, killed,
  index, can_transition, legal_transitions, state_eq, is_terminal,
}

-- A task's life, move by move.
pub data Life : TaskState → TaskState → Type 0 where
  start : {s : TaskState} → Life s s
  move : {s t u : TaskState} → can_transition s t ≡ true → Life t u → Life s u

-- Everything but a terminal state can be killed.
can_transition-killed : (s : TaskState) → is_terminal s ≡ false → can_transition s killed ≡ true
unfolding is_terminal can_transition legal_transitions state_eq index any
can_transition-killed s h = ground arith

can_transition-terminal : (s t : TaskState) → is_terminal s ≡ true → can_transition s t ≡ false
unfolding is_terminal can_transition legal_transitions state_eq index any
can_transition-terminal s t h = ground arith

-- The states that a life goes through, its ends included.
abbrev pub Visits : {s u : TaskState} → TaskState → Life s u → Type 0
Visits x (start {s}) = s ≡ x
Visits x (move {s} legal life) = (s ≡ x) ⊎ Visits x life

-- A gate: whoever leaves a set of states goes through it.
gate :
    (x : TaskState) (before : TaskState → Bool)
    → ((s t : TaskState)
        → before s ≡ true
        → can_transition s t ≡ true
        → (s ≡ x) ⊎ (before t ≡ true))
    → {s u : TaskState} (life : Life s u) → before s ≡ true
    → before u ≡ false
    → Visits x life
gate x before step start b n = absurd (true≢false (sym b ∙ n))
gate x before step (move {s} {t} legal life) b n = elim (step s t b legal) [
  | inl e ↦ inl e
  | inr k ↦ inr (gate x before step life k n)
]

abbrev before_completed : TaskState → Bool
before_completed completed = false
before_completed _ = true

abbrev before_validated : TaskState → Bool
before_validated validated = false
before_validated completed = false
before_validated _ = true

abbrev before_running : TaskState → Bool
before_running running = false
before_running reported = false
before_running validated = false
before_running completed = false
before_running failed = false
before_running _ = true

abbrev before_dispatched : TaskState → Bool
before_dispatched dispatched = false
before_dispatched s = before_running s

through_validated :
    (s t : TaskState)
    → before_completed s ≡ true
    → can_transition s t ≡ true
    → (s ≡ validated) ⊎ (before_completed t ≡ true)
unfolding can_transition legal_transitions state_eq index any
through_validated s t b h = ground arith

through_reported :
    (s t : TaskState)
    → before_validated s ≡ true
    → can_transition s t ≡ true
    → (s ≡ reported) ⊎ (before_validated t ≡ true)
unfolding can_transition legal_transitions state_eq index any
through_reported s t b h = ground arith

through_dispatched :
    (s t : TaskState)
    → before_running s ≡ true
    → can_transition s t ≡ true
    → (s ≡ dispatched) ⊎ (before_running t ≡ true)
unfolding can_transition legal_transitions state_eq index any
through_dispatched s t b h = ground arith

through_queued :
    (s t : TaskState)
    → before_dispatched s ≡ true
    → can_transition s t ≡ true
    → (s ≡ queued) ⊎ (before_dispatched t ≡ true)
unfolding can_transition legal_transitions state_eq index any
through_queued s t b h = ground arith

-- A task that comes from PENDING to COMPLETED has been queued, dispatched, reported and validated,
-- along any moves of the table.
pub Visits-completed :
    (life : Life pending completed)
    → Visits queued life × Visits dispatched life × Visits reported life × Visits validated life
Visits-completed life = (
  gate queued before_dispatched through_queued life refl refl,
  gate dispatched before_running through_dispatched life refl refl,
  gate reported before_validated through_reported life refl refl,
  gate validated before_completed through_validated life refl refl,
)

-- A state is terminal exactly if no move leaves it, and exactly the others can be killed.
pub is_terminal_iff :
    (s : TaskState)
    → ((is_terminal s ≡ true) ↔ ((t : TaskState) → can_transition s t ≡ false))
      × ((is_terminal s ≡ false) ↔ (can_transition s killed ≡ true))
is_terminal_iff s = (
  (λ h t. can_transition-terminal s t h, λ h. live (h killed)),
  (can_transition-killed s, λ h. dead_end h),
)
  where
    live : can_transition s killed ≡ false → is_terminal s ≡ true
    live n = elim (Bool-cases (is_terminal s)) [
      | inl y ↦ y
      | inr m ↦ absurd (true≢false (sym (can_transition-killed s m) ∙ n))
    ]

    dead_end : can_transition s killed ≡ true → is_terminal s ≡ false
    dead_end h = elim (Bool-cases (is_terminal s)) [
      | inl y ↦ absurd (true≢false (sym h ∙ can_transition-terminal s killed y))
      | inr m ↦ m
    ]
