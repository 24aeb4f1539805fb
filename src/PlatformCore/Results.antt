-- ===== src/PlatformCore/Results.antt =====
-- services/platform-core/internal/orchestrator/results.go: `HandleResult`. Each helper takes the
-- state and the caller's copy of the task.
pub mod Outcomes
pub mod Ends
use aegisbastion.Common.{
  ℕ, ◌+◌, ◌≡◌, ◌&&◌, ◌||◌, Bool, true, false, not, List, [], ◌∷◌, Option, none, some, Text, codes,
  text_eq, has_prefix, is_empty, any, all, map, member, find, if◌then◌else◌, ltb,
}
use aegisbastion.Net.{Net}
use aegisbastion.Gatekeeper.Capreg.{RiskClass, r1}
use aegisbastion.PlatformCore.Statemachine.{
  TaskState, pending, queued, dispatched, running, reported, validated, completed, failed, dead,
  killed, rejected_unauthorized, is_terminal, state_eq,
}
use aegisbastion.PlatformCore.Scope.{canonicalize}
use aegisbastion.PlatformCore.Tasks.{
  Task, MissionState, AgentStatus, Db, Effect, Error, not_found, wrong_agent, unspecified_status,
  emit, audited, mission_event, transition, no_fields, set_mission_state, set_agent_status,
  release_all_target_leases, Fields,
}

-- platform.v1 TaskResultStatus.
pub data ResultStatus : Type 0 where
  unspecified succeeded failed_run timeout killed_run rejected : ResultStatus

unfoldable pub result_status_name : ResultStatus → Text
result_status_name succeeded = codes "SUCCEEDED"
result_status_name failed_run = codes "FAILED"
result_status_name rejected = codes "REJECTED_UNAUTHORIZED"
result_status_name killed_run = codes "KILLED"
result_status_name timeout = codes "TIMEOUT"
result_status_name unspecified = []

pub record TaskResult : Type 0 where
  pub task_id : Text
  pub agent_id : Text
  pub status : ResultStatus
  pub error : Text
  pub targets_touched : List Text
  pub artifact_refs : List Text
  pub finished_at : ℕ

-- What `HandleResult` returns beside the state.
abbrev pub Outcome : Type 0
Outcome = Db × Option Error

-- Goes on where the transition returns no error.
abbrev pub then_do : Db × Task × Option Error → (Db → Task → Outcome) → Outcome
then_do (db, t, some e) k = (db, some e)
then_do (db, t, none) k = k db t

-- The columns that the result sets; an error only where it is not empty.
unfoldable pub result_fields : TaskResult → Fields
unfolding result_status_name
result_fields res t = record t {
  result_status = result_status_name res.status;
  artifact_refs = res.artifact_refs;
  targets_touched = res.targets_touched;
  finished_at = res.finished_at;
  error = if is_empty res.error then t.error else res.error;
}

-- `handleFailure`.
unfoldable pub handle_failure : Db → Task → Outcome
handle_failure db t =
    if ltb t.attempt t.max_retries
    then then_do (transition db t (failed ∷ []) queued (λ r. record r { attempt = t.attempt + 1 }))
        (λ db' t'. (emit (mission_event (codes "TASK_RETRY") t.task_id) db', none))
    else then_do (transition db t (failed ∷ []) dead no_fields)
        (λ db' t'. (emit (mission_event (codes "TASK_DEAD") t.task_id) db', none))

-- The end of a success, but for the renewal of a watch.
unfoldable pub complete : Db → Task → Outcome
complete db t = then_do (transition db t (reported ∷ []) validated no_fields) (λ db' t'.
    then_do (transition db' t' (validated ∷ []) completed no_fields)
      (λ db'' t''. (emit (mission_event (codes "TASK_COMPLETED") t.task_id) db'', none)))

unfoldable pub end_killed : Db → Task → Outcome
end_killed db t =
    then_do (transition db t (reported ∷ []) killed no_fields)
      (λ db' t'. (emit (mission_event (codes "TASK_KILLED") t.task_id) db', none))

unfoldable pub end_rejected : TaskResult → Db → Task → Outcome
end_rejected res db t =
    then_do
      (transition db t (reported ∷ []) rejected_unauthorized
        (λ r. record r { rejection_reason = res.error }))
      (λ db' t'. (emit (mission_event (codes "TASK_REJECTED_UNAUTHORIZED") t.task_id) db', none))

unfoldable pub is_scope_bound_watch : Task → Bool
is_scope_bound_watch t = elim t.risk_class [
  | r1 ↦
      text_eq t.capability (codes "monitor.watch") || text_eq t.capability (codes "monitor.rescan")
  | _ ↦ false
]

-- `checkTargetsTouched`: true if it returns no violation.
unfoldable pub check_targets_touched : Net → Task → TaskResult → Bool
check_targets_touched net t res =
    all
      (λ x.
        (is_scope_bound_watch t && has_prefix x (codes "scope:sha256:"))
        || member (canonicalize net x) (map (canonicalize net) t.targets))
      res.targets_touched

abbrev pub may_pause : MissionState → Bool
may_pause MissionState.active = true
may_pause MissionState.planner_degraded = true
may_pause _ = false

abbrev pub state_of : Db × Task × Option Error → Db
state_of (db, t, e) = db

-- `handleScopeViolation`: the errors of its steps are only logged.
unfoldable pub handle_scope_violation : Db → Task → TaskResult → Outcome
handle_scope_violation db t res =
    let audit = emit (audited (codes "SCOPE_VIOLATION") t.task_id) db in
    let quarantine = set_agent_status audit res.agent_id AgentStatus.quarantined in
    let pause = set_mission_state quarantine may_pause t.mission_id MissionState.paused in
    let stop =
      if not (is_terminal t.state) && state_eq t.state reported
      then state_of (transition pause t (reported ∷ []) killed no_fields)
      else pause in
    (emit (mission_event (codes "SCOPE_VIOLATION") t.task_id) stop, none)

-- The last part: how the task goes on from REPORTED.
unfoldable pub route : TaskResult → Db → Task → Outcome
route res db t = elim res.status [
  | succeeded ↦ complete db t
  | failed_run ↦ handle_failure db t
  | timeout ↦ handle_failure db t
  | killed_run ↦ end_killed db t
  | rejected ↦ end_rejected res db t
  | unspecified ↦ (db, none)
]

-- What follows REPORTED.
unfoldable pub after_report : Net → TaskResult → Db → Task → Outcome
after_report net res db t =
    let db' = emit (audited (codes "TASK_RESULT") t.task_id) (release_all_target_leases t db) in
    if check_targets_touched net t res then route res db' t else handle_scope_violation db' t res

abbrev pub is_unspecified : ResultStatus → Bool
is_unspecified unspecified = true
is_unspecified _ = false

-- From the state in which the task has run to REPORTED.
unfoldable pub report : Net → TaskResult → Db → Task → Outcome
report net res db t =
    if is_unspecified res.status
    then (db, some unspecified_status)
    else then_do (transition db t (running ∷ dispatched ∷ []) reported (result_fields res))
        (after_report net res)

-- `HandleResult`.
unfoldable pub handle_result : Net → Db → TaskResult → Outcome
handle_result net db res = elim (find res.task_id db.tasks) [
  | none ↦ (db, some not_found)
  | some t ↦
      if is_terminal t.state
      then (db, none)
      else if not (text_eq t.assigned_agent_id res.agent_id)
      then (db, some wrong_agent)
      else report net res db t
]
