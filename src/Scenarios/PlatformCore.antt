-- ===== src/Scenarios/PlatformCore.antt =====
-- The orchestrator at concrete inputs.
use aegisbastion.Common.{
  Bool-cases, text_eq, text_eq_sound, none≢some, sym, ap, ◌∙◌, ℕ, ◌+◌, ◌≡◌, ◌≢◌, ◌↔◌, ◌≤◌, ◌<◌, ◌⊎◌,
  refl, inl, inr, Bool, true, false, Option, none, some, List, [], ◌∷◌, Text, codes, find, Result,
  ok, err, All, In, arith,
}
use aegisbastion.Gatekeeper.Capreg.{r2}
use aegisbastion.Scenarios.World.{net, host}
use aegisbastion.PlatformCore.Statemachine.{
  TaskState, running, dispatched, reported, killed, queued, completed,
}
use aegisbastion.PlatformCore.Scope.{Scope, check, check_all, canonicalize, in_scope}
use aegisbastion.PlatformCore.Scope.Verdicts.{IsExcluded, IsIncluded, check-in_scope, check_all_iff}
use aegisbastion.PlatformCore.Tasks.{
  Task, Db, Error, MissionState, AgentStatus, transition, not_allowed, no_fields,
}
use aegisbastion.PlatformCore.Tasks.Transitions.{IsMoved, transition-ok}
use aegisbastion.PlatformCore.Results.{
  TaskResult, ResultStatus, succeeded, failed_run, handle_result, check_targets_touched, Outcome,
}
use aegisbastion.PlatformCore.Results.Outcomes.{IsExpected}
use aegisbastion.PlatformCore.Results.Ends.{
  IsRouted, IsContained, handle_result-IsRouted, handle_result-IsContained,
}
use aegisbastion.PlatformCore.Reaper.{requeue_or_dead}
use aegisbastion.PlatformCore.Reaper.Retries.{IsHeld, requeue_or_dead-outcome}
use aegisbastion.PlatformCore.Statemachine.{
  pending, validating, validated, can_transition, legal_transitions, state_eq, index, is_terminal,
}
use aegisbastion.PlatformCore.Statemachine.Graph.{
  Life, start, move, Visits, Visits-completed, is_terminal_iff,
}
use aegisbastion.Common.{any}
use aegisbastion.PlatformCore.Killswitch.{Works, kill_mission}
use aegisbastion.PlatformCore.Killswitch.Drained.{IsKeyed}
use aegisbastion.PlatformCore.Killswitch.Mission.{AllWork, kill_mission-cleared}
use aegisbastion.PlatformCore.Leases.{new_mem_store, acquire, holder, MemStore}
use aegisbastion.PlatformCore.Leases.Exclusion.{Action, acquires, act_all, actor, acquire-exclusive}

abbrev task : Task
task = record {
  task_id = codes "tsk_1";
  plan_id = [];
  mission_id = codes "msn_1";
  capability = codes "detect.scan";
  risk_class = r2;
  targets = host ∷ [];
  attempt = 1;
  max_retries = 2;
  task_key = codes "a";
  depends_on = [];
  timeout_s = 900;
  state = running;
  assigned_agent_id = codes "agt_1";
  rejection_reason = [];
  result_status = [];
  artifact_refs = [];
  targets_touched = [];
  error = [];
  finished_at = 0;
}

abbrev db : Db
db = record {
  tasks = (codes "tsk_1", task) ∷ [];
  moves = [];
  missions = (codes "msn_1", MissionState.active) ∷ [];
  agents = (codes "agt_1", AgentStatus.online) ∷ [];
  kill_switches = [];
  effects = [];
}

abbrev result : ResultStatus → List Text → TaskResult
result status touched = record {
  task_id = codes "tsk_1";
  agent_id = codes "agt_1";
  status = status;
  error = [];
  targets_touched = touched;
  artifact_refs = [];
  finished_at = 9;
}

moves : (transition db task (running ∷ []) killed no_fields).2 ≡ none
unfolding transition aegisbastion.Common.all aegisbastion.PlatformCore.Statemachine.can_transition
    aegisbastion.PlatformCore.Tasks.store_transition find aegisbastion.Common.text_eq
moves = refl

transition-ok_example :
    IsMoved db task
      (running ∷ [])
      killed
      no_fields
      (transition db task (running ∷ []) killed no_fields).0
      (transition db task (running ∷ []) killed no_fields).1
transition-ok_example = transition-ok db task (running ∷ []) killed no_fields moves

stored : find (codes "tsk_1") db.tasks ≡ some task
unfolding find aegisbastion.Common.text_eq
stored = refl

expected : IsExpected net db (result failed_run (host ∷ [])) task
expected = record { stored = stored; keyed = refl; runs = inl refl; agent = refl; given = λ e. cc }

clean : check_targets_touched net task (result failed_run (host ∷ [])) ≡ true
unfolding check_targets_touched aegisbastion.Common.all
    aegisbastion.PlatformCore.Results.is_scope_bound_watch aegisbastion.Common.member canonicalize
    aegisbastion.Common.trim_space aegisbastion.Common.trim_suffix aegisbastion.Common.to_lower
    aegisbastion.Common.trim_prefix aegisbastion.Common.contains
    aegisbastion.PlatformCore.Scope.before_path
clean = refl

handle_result-IsRouted_example :
    IsRouted failed_run (codes "tsk_1") (handle_result net db (result failed_run (host ∷ [])))
handle_result-IsRouted_example =
    handle_result-IsRouted net db (result failed_run (host ∷ [])) task expected clean

expected_too : IsExpected net db (result succeeded (codes "x.org" ∷ [])) task
expected_too = record {
  stored = stored;
  keyed = refl;
  runs = inl refl;
  agent = refl;
  given = λ e. cc;
}

strays : check_targets_touched net task (result succeeded (codes "x.org" ∷ [])) ≡ false
unfolding check_targets_touched aegisbastion.Common.all
    aegisbastion.PlatformCore.Results.is_scope_bound_watch aegisbastion.Common.member canonicalize
    aegisbastion.Common.trim_space aegisbastion.Common.trim_suffix aegisbastion.Common.to_lower
    aegisbastion.Common.trim_prefix aegisbastion.Common.contains
    aegisbastion.PlatformCore.Scope.before_path
strays = refl

handle_result-IsContained_example :
    IsContained
      (codes "tsk_1")
      (codes "agt_1")
      (handle_result net db (result succeeded (codes "x.org" ∷ [])))
handle_result-IsContained_example =
    handle_result-IsContained net db (result succeeded (codes "x.org" ∷ [])) task expected_too
      strays

held : IsHeld db task
held = record { stored = stored; held = inr refl }

requeue_or_dead-outcome_example :
    (1 < 2
      → (row : Task) × (find (codes "tsk_1") (requeue_or_dead db task).tasks ≡ some row)
        × (row.state ≡ queued)
        × (row.attempt ≡ 1 + 1))
    × (2 ≤ 1 → (requeue_or_dead db task).tasks ≡ db.tasks)
requeue_or_dead-outcome_example = requeue_or_dead-outcome db task held

abbrev key : Text → Text
key t = t

abbrev attempts : List (ℕ × Action)
attempts = (7, acquires host (codes "tsk") 50) ∷ []

taken : (acquire key new_mem_store 5 host (codes "tsk_1") 10).1 ≡ true
unfolding acquire aegisbastion.PlatformCore.Leases.is_live find
taken = refl

strangers : All (λ e. (e.0 ≤ 5 + 10) × (actor e.1 ≢ codes "tsk_1")) attempts
strangers = ((omega arith, λ e. cc), tt)

acquire-exclusive_example :
    (holder key
        (act_all key (acquire key new_mem_store 5 host (codes "tsk_1") 10).0 attempts)
        9
        host
      ≡ codes "tsk_1")
    × ((other : Text) (ttl' : ℕ)
        → (acquire key
            (act_all key (acquire key new_mem_store 5 host (codes "tsk_1") 10).0 attempts)
            9
            host
            other
            ttl').1
          ≡ false)
acquire-exclusive_example =
    acquire-exclusive key new_mem_store 5 host (codes "tsk_1") 10 attempts 9 taken strangers
      (omega arith)

abbrev scope : Scope
scope = record { domains = codes "*.com" ∷ []; cidrs = []; excludes = codes "b.com" ∷ [] }

check-in_scope_example :
    (check net scope host ≡ in_scope)
    ↔ ((canonicalize net host ≢ []) × (¬ IsExcluded net scope host) × IsIncluded net scope host)
check-in_scope_example = check-in_scope net scope host

check_all_iff_example :
    (check_all net scope (host ∷ host ∷ []) ≡ ok tt)
    ↔ ((t : Text) → In t (host ∷ host ∷ []) → check net scope t ≡ in_scope)
check_all_iff_example = check_all_iff net scope (host ∷ host ∷ [])

keyed : IsKeyed db
unfolding find
keyed id t h = elim (Bool-cases (text_eq (codes "tsk_1") id)) [
  | inl y ↦ ap (λ u. u.task_id) (some_inj (sym (rw (y) at h))) ∙ text_eq_sound (codes "tsk_1") id y
  | inr n ↦ absurd (none≢some (rw (n) at h))
]
  where
    some_inj : {t u : Task} → some t ≡ some u → t ≡ u
    some_inj e = cc

abbrev at_work : Works
at_work = record {
  engages = true;
  sets = true;
  lists = true;
  audits = true;
  records = true;
  broadcasts = true;
  meanwhile = (λ d. d);
}

kill_mission-cleared_example :
    (((kill_mission at_work (codes "msn_1") db).1 ≡ none) ↔ AllWork at_work)
    × ((kill_mission at_work (codes "msn_1") db).1 ≡ none
        → (k : Text) (t : Task) → find k (kill_mission at_work (codes "msn_1") db).0.tasks ≡ some t
        → t.mission_id ≡ codes "msn_1"
        → (t.state ≢ queued) × (t.state ≢ dispatched) × (t.state ≢ running))
kill_mission-cleared_example = kill_mission-cleared at_work (codes "msn_1") db keyed (λ d. refl)

straight : Life pending completed
unfolding can_transition legal_transitions state_eq index any
straight = move {t = validating} refl (
    move {t = queued} refl (
      move {t = dispatched} refl (
        move {t = running} refl (
          move {t = reported} refl (move {t = validated} refl (move {t = completed} refl start))))))

Visits-completed_example :
    Visits queued straight
    × Visits dispatched straight
    × Visits reported straight
    × Visits validated straight
Visits-completed_example = Visits-completed straight

is_terminal_iff_example :
    ((is_terminal running ≡ true) ↔ ((t : TaskState) → can_transition running t ≡ false))
    × ((is_terminal running ≡ false) ↔ (can_transition running killed ≡ true))
is_terminal_iff_example = is_terminal_iff running
