-- ===== src/PlatformCore/Results/Outcomes.antt =====
-- results.go: where `HandleResult` leaves the task.
use aegisbastion.Common.{
  ◌+◌, none≢some, ◌≡◌, ◌≢◌, refl, ◌⊎◌, inl, inr, true, false, List, [], ◌∷◌, Option, none, some,
  Text, find, any, all, arith, Bool-cases, sym, subst, ltb, text_eq_refl,
}
use aegisbastion.Net.{Net}
use aegisbastion.PlatformCore.Statemachine.{
  TaskState, queued, dispatched, running, reported, validated, completed, failed, dead, killed,
  rejected_unauthorized, is_terminal, state_eq, can_transition, legal_transitions, index,
}
use aegisbastion.PlatformCore.Tasks.{
  Task, Db, Error, invalid_transition, emit, transition, release_leases, lease_released,
  release_all_target_leases, no_fields,
}
use aegisbastion.PlatformCore.Tasks.Transitions.{
  HasState, IsTaken, transition-IsTaken, transition-refused,
}
use aegisbastion.PlatformCore.Results.{
  TaskResult, ResultStatus, unspecified, is_unspecified, Outcome, then_do, result_fields,
  handle_failure, complete, end_killed, end_rejected, after_report, report, handle_result,
}

release_leases-tasks :
    (owner : Text) (targets : List Text) (db : Db)
    → (release_leases owner targets db).tasks ≡ db.tasks
unfolding release_leases
release_leases-tasks owner [] db = refl
release_leases-tasks owner (x ∷ targets) db =
    release_leases-tasks owner targets (emit (lease_released x owner) db)

pub release_all_target_leases-tasks :
    (t : Task) (db : Db) → (release_all_target_leases t db).tasks ≡ db.tasks
unfolding release_all_target_leases
release_all_target_leases-tasks t db = ground (arith, release_leases-tasks t.task_id t.targets db)

-- After a step that returns no error, the next goes on.
pub then_do-taken :
    (id : Text) (to : TaskState) (t : Task) (r : Db × Task × Option Error) (k : Db → Task → Outcome)
    (P : Outcome → Type 0)
    → IsTaken id to t r
    → ((db' : Db) → HasState db' id to → P (k db' (record t { state = to })))
    → P (then_do r k)
then_do-taken id to t (db', t', some e) k P (h, m, c) go = absurd (none≢some (sym h))
then_do-taken id to t (db', t', none) k P (h, m, c) go = subst (λ x. P (k db' x)) (sym c) (go db' m)

-- The moves of a task that has reported.
pub legal_moves :
    (all (λ s. can_transition s reported) (running ∷ dispatched ∷ []) ≡ true)
    × (all (λ s. can_transition s validated) (reported ∷ []) ≡ true)
    × (all (λ s. can_transition s completed) (validated ∷ []) ≡ true)
    × (all (λ s. can_transition s killed) (reported ∷ []) ≡ true)
    × (all (λ s. can_transition s rejected_unauthorized) (reported ∷ []) ≡ true)
    × (all (λ s. can_transition s queued) (failed ∷ []) ≡ true)
    × (all (λ s. can_transition s dead) (failed ∷ []) ≡ true)
unfolding all any can_transition legal_transitions state_eq index
legal_moves = (refl, refl, refl, refl, refl, refl, refl)

pub here : (s : TaskState) → any (λ x. state_eq x s) (s ∷ []) ≡ true
unfolding any state_eq
here s = ground arith

elsewhere : any (λ s. state_eq s reported) (failed ∷ []) ≡ false
unfolding any state_eq index
elsewhere = refl

-- The task is stored in a state and there is no error.
abbrev pub IsEnded : Text → TaskState → Outcome → Type 0
IsEnded id s (db, e) = (e ≡ none) × HasState db id s

module _ (db : Db) (t : Task) (now : HasState db t.task_id reported) where
  pub handle_failure-stuck : handle_failure db t ≡ (db, some invalid_transition)
  unfolding handle_failure
  handle_failure-stuck = elim (Bool-cases (ltb t.attempt t.max_retries)) [
    | inl y ↦ rw (
      y,
      transition-refused db t (failed ∷ []) queued reported
          (λ r. record r { attempt = t.attempt + 1 }) now legal_moves.5 elsewhere,
      handle_failure,
    )
    | inr n ↦ rw (
      n,
      transition-refused db t (failed ∷ []) dead reported no_fields now legal_moves.6 elsewhere,
      handle_failure,
    )
  ]

  pub complete-IsEnded : IsEnded t.task_id completed (complete db t)
  unfolding complete
  complete-IsEnded =
      then_do-taken t.task_id validated t _ _ (IsEnded t.task_id completed)
        (transition-IsTaken db t (reported ∷ []) validated reported no_fields now legal_moves.1
          (here reported))
        (λ db' m.
          then_do-taken t.task_id completed (record t { state = validated }) _ _
            (IsEnded t.task_id completed)
            (transition-IsTaken db' (record t { state = validated }) (validated ∷ []) completed
              validated no_fields m legal_moves.2 (here validated))
            (λ db'' n. (refl, n)))

  pub end_killed-IsEnded : IsEnded t.task_id killed (end_killed db t)
  unfolding end_killed
  end_killed-IsEnded =
      then_do-taken t.task_id killed t _ _ (IsEnded t.task_id killed)
        (transition-IsTaken db t (reported ∷ []) killed reported no_fields now legal_moves.3
          (here reported))
        (λ db' m. (refl, m))

  pub end_rejected-IsEnded :
      (res : TaskResult) → IsEnded t.task_id rejected_unauthorized (end_rejected res db t)
  unfolding end_rejected
  end_rejected-IsEnded res =
      then_do-taken t.task_id rejected_unauthorized t _ _ (IsEnded t.task_id rejected_unauthorized)
        (transition-IsTaken db t (reported ∷ []) rejected_unauthorized reported _ now legal_moves.4
          (here reported))
        (λ db' m. (refl, m))

is_unspecified_sound : (s : ResultStatus) → is_unspecified s ≡ true → s ≡ unspecified
is_unspecified_sound s h = ground arith

module _ (net : Net) (db : Db) (res : TaskResult) (t : Task) where
  -- A result that the assigned agent sends for a task that it runs.
  pub record IsExpected : Type 0 where
    pub stored : find res.task_id db.tasks ≡ some t
    pub keyed : t.task_id ≡ res.task_id
    pub runs : (t.state ≡ running) ⊎ (t.state ≡ dispatched)
    pub agent : t.assigned_agent_id ≡ res.agent_id
    pub given : res.status ≢ unspecified

  not_terminal : IsExpected → is_terminal t.state ≡ false
  unfolding is_terminal
  not_terminal x = ground (arith, x.runs)

  met : IsExpected → any (λ s. state_eq s t.state) (running ∷ dispatched ∷ []) ≡ true
  unfolding any state_eq index
  met x = ground (arith, x.runs)

  pub handle_result-report : IsExpected → handle_result net db res ≡ report net res db t
  unfolding handle_result
  handle_result-report x =
      rw (x.stored, not_terminal x, x.agent, text_eq_refl res.agent_id, handle_result)

  given : IsExpected → is_unspecified res.status ≡ false
  given x = elim (Bool-cases (is_unspecified res.status)) [
    | inl y ↦ absurd (x.given (is_unspecified_sound res.status y))
    | inr n ↦ n
  ]

  pub report-after :
      (P : Outcome → Type 0)
      → IsExpected
      → ((db' : Db)
          → HasState db' t.task_id reported
          → P (after_report net res db' (record t { state = reported })))
      → P (report net res db t)
  unfolding report
  report-after P x go =
      rw (given x, report)
        (then_do-taken t.task_id reported t
          (transition db t (running ∷ dispatched ∷ []) reported (result_fields res))
          (after_report net res) P
          (transition-IsTaken db t (running ∷ dispatched ∷ []) reported t.state (result_fields res)
            (t, subst (λ i. find i db.tasks ≡ some t) (sym x.keyed) x.stored, refl) legal_moves.0
            (met x))
          go)
