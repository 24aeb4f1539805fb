-- ===== src/PlatformCore/Results/Ends.antt =====
-- results.go: where `HandleResult` leaves a task, by what the agent reports.
use aegisbastion.Common.{
  none≢some, Option-cases, find-put, ◌≡◌, refl, inl, inr, Bool, true, false, List, [], ◌∷◌, Option,
  none, some, Text, codes, find, arith, sym, ◌∙◌, subst, text_eq_refl,
}
use aegisbastion.Net.{Net}
use aegisbastion.PlatformCore.Statemachine.{
  TaskState, reported, completed, killed, rejected_unauthorized, is_terminal, state_eq, index,
}
use aegisbastion.PlatformCore.Tasks.{
  audited, AgentStatus, MissionState, set_agent_status, set_mission_state, Fields, store_transition,
  write, Task, Db, Error, invalid_transition, emit, transition, release_all_target_leases,
  no_fields,
}
use aegisbastion.PlatformCore.Tasks.Transitions.{HasState, transition-IsTaken}
use aegisbastion.PlatformCore.Results.{
  TaskResult, ResultStatus, succeeded, failed_run, timeout, killed_run, rejected, unspecified,
  may_pause, Outcome, route, after_report, handle_result, check_targets_touched,
  is_scope_bound_watch, handle_scope_violation,
}
use aegisbastion.PlatformCore.Results.Outcomes.{
  IsExpected, release_all_target_leases-tasks, handle_failure-stuck, complete-IsEnded,
  end_killed-IsEnded, end_rejected-IsEnded, handle_result-report, report-after, legal_moves, here,
}

-- What the task has come to, by the status that the agent reports, and the error beside it.
abbrev pub end_of : ResultStatus → TaskState
end_of succeeded = completed
end_of killed_run = killed
end_of rejected = rejected_unauthorized
end_of _ = reported

abbrev pub error_of : ResultStatus → Option Error
error_of failed_run = some invalid_transition
error_of timeout = some invalid_transition
error_of _ = none

-- The outcome that a status has.
abbrev pub IsRouted : ResultStatus → Text → Outcome → Type 0
IsRouted s id (db, e) = (e ≡ error_of s) × HasState db id (end_of s)

module _ (res : TaskResult) (db : Db) (t : Task) (now : HasState db t.task_id reported) where
  route-IsRouted : (s : ResultStatus) → res.status ≡ s → IsRouted s t.task_id (route res db t)
  unfolding route
  route-IsRouted succeeded e = rw (e, route) (complete-IsEnded db t now)
  route-IsRouted failed_run e = rw (e, handle_failure-stuck db t now, route) (refl, now)
  route-IsRouted timeout e = rw (e, handle_failure-stuck db t now, route) (refl, now)
  route-IsRouted killed_run e = rw (e, route) (end_killed-IsEnded db t now)
  route-IsRouted rejected e = rw (e, route) (end_rejected-IsEnded db t now res)
  route-IsRouted unspecified e = rw (e, route) (refl, now)

-- The state once the leases are released and the result is in the audit log.
abbrev pub settled : Task → Db → Db
settled t db = emit (audited (codes "TASK_RESULT") t.task_id) (release_all_target_leases t db)

settled-HasState :
    (t : Task) (db : Db) (id : Text) (s : TaskState)
    → HasState db id s
    → HasState (settled t db) id s
settled-HasState t db id s (row, g, e) =
    (row, subst (λ m. find id m ≡ some row) (sym (release_all_target_leases-tasks t db)) g, e)

-- The violating task is killed and its agent, if it is registered, quarantined.
abbrev pub IsContained : Text → Text → Outcome → Type 0
IsContained id agent (db', e) =
    (e ≡ none)
    × HasState db' id killed
    × ((s : AgentStatus) → find agent db'.agents ≡ some s → s ≡ AgentStatus.quarantined)

transition-agents :
    (db : Db) (t : Task) (from : List TaskState) (to : TaskState) (fields : Fields)
    → (transition db t from to fields).0.agents ≡ db.agents
unfolding transition store_transition write
transition-agents db t from to fields = ground arith

set_mission_state-kept :
    (db : Db) (from : MissionState → Bool) (id : Text) (to : MissionState)
    → ((set_mission_state db from id to).tasks ≡ db.tasks)
      × ((set_mission_state db from id to).agents ≡ db.agents)
unfolding set_mission_state
set_mission_state-kept db from id to = (ground arith, ground arith)

set_agent_status-tasks :
    (db : Db) (id : Text) (status : AgentStatus) → (set_agent_status db id status).tasks ≡ db.tasks
unfolding set_agent_status
set_agent_status-tasks db id status = ground arith

set_agent_status-set :
    (db : Db) (id : Text) (status s : AgentStatus)
    → find id (set_agent_status db id status).agents ≡ some s
    → s ≡ status
unfolding set_agent_status
set_agent_status-set db id status s h = elim (Option-cases (find id db.agents)) [
  | inl n ↦ absurd (none≢some (sym n ∙ rw (n, set_agent_status) at h))
  | inr (r, g) ↦
      some-inj (
        sym (rw (g, set_agent_status) at h)
        ∙ find-put id id status db.agents
        ∙ rw (text_eq_refl id))
]
  where
    some-inj : some s ≡ some status → s ≡ status
    some-inj e = cc

handle_scope_violation-IsContained :
    (db : Db) (t : Task) (res : TaskResult)
    → HasState db t.task_id reported
    → t.state ≡ reported
    → IsContained t.task_id res.agent_id (handle_scope_violation db t res)
unfolding handle_scope_violation is_terminal state_eq index
handle_scope_violation-IsContained db t res (row, g, e) k =
    rw (k, handle_scope_violation) (refl, killed_now, quarantined_now)
  where
    audit : Db
    audit = emit (audited (codes "SCOPE_VIOLATION") t.task_id) db

    paused_db : Db
    paused_db =
        set_mission_state (set_agent_status audit res.agent_id AgentStatus.quarantined) may_pause
          t.mission_id MissionState.paused

    after : Task
    after = record t { state = reported }

    same_tasks : paused_db.tasks ≡ db.tasks
    same_tasks =
        (set_mission_state-kept _ may_pause t.mission_id MissionState.paused).0
        ∙ set_agent_status-tasks audit res.agent_id AgentStatus.quarantined

    killed_now :
        HasState (transition paused_db after (reported ∷ []) killed no_fields).0 t.task_id killed
    killed_now =
        (transition-IsTaken paused_db after (reported ∷ []) killed reported no_fields
          (row, subst (λ m. find t.task_id m ≡ some row) (sym same_tasks) g, e) legal_moves.3
          (here reported)).1

    quarantined_now :
        (s : AgentStatus)
        → find res.agent_id (transition paused_db after (reported ∷ []) killed no_fields).0.agents
          ≡ some s
        → s ≡ AgentStatus.quarantined
    quarantined_now s h = set_agent_status-set audit res.agent_id AgentStatus.quarantined s (
        subst (λ m. find res.agent_id m ≡ some s)
          (transition-agents paused_db after (reported ∷ []) killed no_fields
            ∙ (set_mission_state-kept _ may_pause t.mission_id MissionState.paused).1)
          h)

module _ (net : Net) (db : Db) (res : TaskResult) (t : Task) where
  after_report-clean :
      check_targets_touched net t res ≡ true
      → after_report net res db t ≡ route res (settled t db) t
  unfolding after_report
  after_report-clean c = rw (c, after_report)

  after_report-violation :
      check_targets_touched net t res ≡ false
      → after_report net res db t ≡ handle_scope_violation (settled t db) t res
  unfolding after_report
  after_report-violation c = rw (c, after_report)

  -- The check reads only what the report leaves alone.
  same_check :
      check_targets_touched net (record t { state = reported }) res
      ≡ check_targets_touched net t res
  unfolding check_targets_touched is_scope_bound_watch
  same_check = refl

module _ (net : Net) (db : Db) (res : TaskResult) (t : Task) where
  -- A clean result of the assigned agent, for a task that is stored as dispatched or running, ends
  -- a task that succeeded, was killed or was refused in the state of that name. One that failed or
  -- ran out of time leaves it in REPORTED, with an error: it is neither queued again nor dead.
  pub handle_result-IsRouted :
      IsExpected net db res t
      → check_targets_touched net t res ≡ true
      → IsRouted res.status t.task_id (handle_result net db res)
  handle_result-IsRouted x c =
      subst (IsRouted res.status t.task_id) (sym (handle_result-report net db res t x)) (
        report-after net db res t (IsRouted res.status t.task_id) x (λ db' m.
          subst (IsRouted res.status t.task_id)
            (sym (after_report-clean net db' res after (same_check net db res t ∙ c)))
            (route-IsRouted res (settled after db') after
              (settled-HasState after db' t.task_id reported m) res.status refl)))
    where
      after : Task
      after = record t { state = reported }

  -- A result of the assigned agent, for a task that is stored as dispatched or running, that names
  -- a target outside the authorized ones: the task is killed, whichever status it reports, but for
  -- one that is unspecified, and the agent, if it is registered, is quarantined.
  pub handle_result-IsContained :
      IsExpected net db res t
      → check_targets_touched net t res ≡ false
      → IsContained t.task_id res.agent_id (handle_result net db res)
  handle_result-IsContained x c =
      subst (IsContained t.task_id res.agent_id) (sym (handle_result-report net db res t x)) (
        report-after net db res t (IsContained t.task_id res.agent_id) x (λ db' m.
          subst (IsContained t.task_id res.agent_id)
            (sym (after_report-violation net db' res after (same_check net db res t ∙ c)))
            (handle_scope_violation-IsContained (settled after db') after res
              (settled-HasState after db' t.task_id reported m) refl)))
    where
      after : Task
      after = record t { state = reported }
