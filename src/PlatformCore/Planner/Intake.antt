-- ===== src/PlatformCore/Planner/Intake.antt =====
-- planner.go: `SubmitTaskPlan`, `validateTask` and `persistTask`. A write fails where the constraints
-- of its table (migrations/000001_platform_core.up.sql) refuse the row, and a transition by its errors.
use aegisbastion.Common.{
  find, ℕ, suc, ◌||◌, Bool, true, false, not, List, [], ◌∷◌, Option, none, some, Text, is_empty,
  member, all, put, if◌then◌else◌, ltb, leb, ◌==◌, Result, ok, err, ◌>>=◌, ◌>>◌, reject_if,
}
use aegisbastion.Gatekeeper.Capreg.{RiskClass}
use aegisbastion.PlatformCore.Scope.{check_all}
use aegisbastion.PlatformCore.Statemachine.{pending, validating, queued, rejected_unauthorized}
use aegisbastion.PlatformCore.Tasks.{
  Db, Task, MissionState, Move, audited, emit, transition, no_fields, Fields,
}
use aegisbastion.PlatformCore.Tasks
use aegisbastion.PlatformCore.Planner.Types.{
  risk_rank, commander_max_risk, TaskSpec, Mission, RoeRecord, allows_capability, Reason, missing,
  registry_failed, unregistered, above_ceiling, above_commander, above_roe, not_allowed,
  out_of_scope, unknown_dependency, quota_exceeded, TaskVerdict, PlanDecision, rejected, accepted,
  partial, Plan, Error, invalid_argument, internal, Env,
}

abbrev pub is_active_mission : MissionState → Bool
is_active_mission MissionState.active = true
is_active_mission _ = false

abbrev pub or_error {κ} : {A : Type κ} → Error → Option A → Result Error A
or_error e none = err e
or_error e (some a) = ok a

abbrev pub ceiling_of : Option (Option RiskClass) → Result Reason RiskClass
ceiling_of none = err registry_failed
ceiling_of (some none) = err unregistered
ceiling_of (some (some risk)) = ok risk

abbrev pub is_error {κ} : {E : Type 0} {A : Type κ} → Result E A → Bool
is_error (err e) = true
is_error (ok a) = false

-- `every task needs a task_key`, and none twice.
unfoldable pub take_keys : List TaskSpec → List Text → Result Error (List Text)
take_keys [] keys = ok keys
take_keys (t ∷ ts) keys = do
  reject_if (is_empty t.task_key) invalid_argument
  reject_if (member t.task_key keys) invalid_argument
  take_keys ts (t.task_key ∷ keys)

-- `decision`, from the number of accepted tasks and of all.
unfoldable pub decide : ℕ → ℕ → PlanDecision
decide n total = if n == total then accepted else if ltb 0 n then partial else rejected

abbrev pub is_found {κ} : {A : Type κ} → Option A → Bool
is_found none = false
is_found (some a) = true

abbrev pub count_if : Option Reason → ℕ → ℕ
count_if none n = suc n
count_if (some r) n = n

abbrev pub add_verdict :
    TaskVerdict
    → Db × Result Error (List TaskVerdict × ℕ)
    → Db × Result Error (List TaskVerdict × ℕ)
add_verdict v (db, err e) = (db, err e)
add_verdict v (db, ok (vs, n)) = (db, ok (v ∷ vs, n))

abbrev pub unless_failed {κ} :
    {A : Type κ} → Db × Option Error → (Db → Db × Result Error A) → Db × Result Error A
unless_failed (db, some e) next = (db, err e)
unless_failed (db, none) next = next db

-- An error of `transition`.
abbrev pub TransitionError : Type 0
TransitionError = Tasks.Error

module _ (env : Env) where
  -- `validateTask`.
  unfoldable pub validate_task : TaskSpec → List Text → RoeRecord → Text → Result Reason (Unit {0})
  unfolding risk_rank commander_max_risk allows_capability check_all
  validate_task spec keys roe commander = do
    reject_if (is_empty spec.capability || risk_rank spec.risk_class == 0) missing
    ceiling ← ceiling_of (env.capability_exists spec.capability)
    reject_if (ltb (risk_rank ceiling) (risk_rank spec.risk_class)) above_ceiling
    reject_if (ltb (commander_max_risk commander) (risk_rank spec.risk_class)) above_commander
    reject_if (ltb (risk_rank roe.max_risk_class) (risk_rank spec.risk_class)) above_roe
    reject_if (not (allows_capability roe spec.capability)) not_allowed
    reject_if (is_error (check_all env.net roe.scope spec.targets)) out_of_scope
    reject_if (not (all (λ d. member d keys) spec.depends_on)) unknown_dependency

  -- The verdict of a task, with the commander's quota.
  unfoldable pub verdict_of : TaskSpec → List Text → RoeRecord → Text → ℕ → ℕ → Option Reason
  unfolding validate_task
  verdict_of spec keys roe commander n budget = elim (validate_task spec keys roe commander) [
    | err reason ↦ some reason
    | ok done ↦ if leb budget n then some quota_exceeded else none
  ]

  unfoldable pub task_row : Text → Plan → Mission → TaskSpec → Task
  task_row id plan mission spec = record {
    task_id = id;
    plan_id = plan.plan_id;
    mission_id = mission.mission_id;
    task_key = spec.task_key;
    depends_on = spec.depends_on;
    timeout_s = if spec.timeout_s == 0 then 900 else spec.timeout_s;
    capability = spec.capability;
    risk_class = spec.risk_class;
    targets = spec.targets;
    attempt = 0;
    max_retries = spec.max_retries;
    state = pending;
    assigned_agent_id = [];
    rejection_reason = [];
    result_status = [];
    artifact_refs = [];
    targets_touched = [];
    error = [];
    finished_at = 0;
  }

  abbrev pub failed : Option TransitionError → Option Error
  failed none = none
  failed (some e) = some internal

  -- The last move of `persistTask`.
  unfoldable pub settle : Option Reason → Db → Task → Db × Option Error
  unfolding transition
  settle none db t =
      let (db', t', e) = transition db t (validating ∷ []) queued no_fields in (db', failed e)
  settle (some r) db t =
      let (db', t', e) =
        transition db t (validating ∷ []) rejected_unauthorized
          (λ row. record row { rejection_reason = env.reason_text r }) in
      (db', failed e)

  unfoldable pub settle_after :
      Option Reason → Db × Task × Option TransitionError → Db × Option Error
  unfolding settle
  settle_after reason (db, t, some e) = (db, some internal)
  settle_after reason (db, t, none) = settle reason db t

  -- `InsertTask`: the table has a risk class for each task, and each id once.
  unfoldable pub insert_task : Text → Task → Db → Db × Option Error
  insert_task id t db =
      if risk_rank t.risk_class == 0 || is_found (find id db.tasks)
      then (db, some internal)
      else (record db { tasks = put id t db.tasks }, none)

  unfoldable pub move_inserted : Option Reason → Task → Db × Option Error → Db × Option Error
  unfolding settle_after transition
  move_inserted reason t (db, some e) = (db, some e)
  move_inserted reason t (db, none) =
      settle_after reason (transition db t (pending ∷ []) validating no_fields)

  -- `persistTask`.
  unfoldable pub persist_task :
      Text → Plan → Mission → TaskSpec → Option Reason → Db → Db × Option Error
  unfolding task_row insert_task move_inserted
  persist_task id plan mission spec reason db =
      let t = task_row id plan mission spec in move_inserted reason t (insert_task id t db)

  -- The loop over the tasks: the verdicts, and how many are accepted. `k` counts the rounds.
  unfoldable pub intake_tasks :
      Plan
      → Mission
      → RoeRecord
      → List Text
      → ℕ
      → ℕ
      → ℕ
      → List TaskSpec
      → Db
      → Db × Result Error (List TaskVerdict × ℕ)
  unfolding verdict_of persist_task
  intake_tasks plan mission roe keys budget k n [] db = (db, ok ([], n))
  intake_tasks plan mission roe keys budget k n (spec ∷ specs) db =
      let reason = verdict_of spec keys roe plan.submitted_by n budget in
      unless_failed (persist_task (env.new_task k) plan mission spec reason db) (λ db'.
        add_verdict (record { task_key = spec.task_key; reason = reason })
          (intake_tasks plan mission roe keys budget (suc k) (count_if reason n) specs db'))
