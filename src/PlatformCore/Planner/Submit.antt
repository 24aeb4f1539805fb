-- ===== src/PlatformCore/Planner/Submit.antt =====
-- planner.go: `SubmitTaskPlan` as a whole.
use aegisbastion.Common.{
  Bool, Option, any, ℕ, ◌-◌, ◌&&◌, ◌||◌, not, List, [], none, some, Text, codes, text_eq, is_empty,
  length, find, put, if◌then◌else◌, Result, ok, err, ◌>>=◌, ◌>>◌, reject_if,
}
use aegisbastion.PlatformCore.Tasks.{Db, audited, emit}
use aegisbastion.PlatformCore.Planner.Types.{
  internal, rejected, PlanDecision, commander_name, PlanRequest, Mission, RoeRecord, active,
  TaskVerdict, undecided, Plan, Error, invalid_argument, not_found, failed_precondition,
  permission_denied, roe_unavailable, Env, State, Response,
}
use aegisbastion.PlatformCore.Planner.Intake.{
  is_active_mission, or_error, take_keys, decide, intake_tasks,
}

-- The commanders that the table of plans has.
unfoldable pub is_table_commander : Text → Bool
is_table_commander name = text_eq name (codes "cai") || text_eq name (codes "hexstrike")

-- `InsertPlan`: the row that stands under the key, none where the plan's is new. The table refuses
-- other commanders, and a plan's id that another row has.
unfoldable pub insert_plan : Plan → List (Text × Plan) → Result Error (Option Plan)
unfolding is_table_commander
insert_plan plan plans =
    if not (is_table_commander plan.submitted_by)
    then err internal
    else (elim (find plan.idempotency_key plans) [
      | some row ↦ ok (some row)
      | none ↦ if any (λ e. text_eq e.1.plan_id plan.plan_id) plans then err internal else ok none
    ])

-- `verdictFromRow`: a row without a verdict counts as a rejection.
abbrev pub decision_from : PlanDecision → PlanDecision
decision_from undecided = rejected
decision_from d = d

module _ (env : Env) where
  -- The tests before the plan is stored: the mission and its RoE.
  unfoldable pub check_plan : ℕ → PlanRequest → Result Error (Mission × RoeRecord)
  unfolding active
  check_plan now req = do
    reject_if
        (is_empty req.mission_id
          || is_empty (commander_name req.submitted_by)
          || is_empty req.idempotency_key)
        invalid_argument
    reject_if (is_empty req.tasks) invalid_argument
    mission ← or_error not_found (env.get_mission req.mission_id)
    reject_if (not (is_active_mission mission.state)) failed_precondition
    reject_if
        (not (text_eq (commander_name req.submitted_by) mission.owning_commander)
          && not (text_eq req.delegated_by mission.owning_commander))
        permission_denied
    roe ← or_error roe_unavailable (env.roe mission.roe_id)
    reject_if (not (active roe now)) failed_precondition
    ok (mission, roe)

  unfoldable pub plan_row : PlanRequest → Mission → Plan
  plan_row req mission = record {
    plan_id = if is_empty req.plan_id then env.new_plan else req.plan_id;
    mission_id = mission.mission_id;
    submitted_by = commander_name req.submitted_by;
    delegated_by = req.delegated_by;
    idempotency_key = req.idempotency_key;
    verdict = undecided;
    verdict_detail = [];
  }

  -- `SavePlanVerdict` and the audit record of the plan.
  unfoldable pub conclude :
      PlanRequest
      → Plan
      → List (Text × Plan)
      → Db × Result Error (List TaskVerdict × ℕ)
      → State × Result Error Response
  unfolding decide
  conclude req plan plans (db, err e) = (record { db = db; plans = plans }, err e)
  conclude req plan plans (db, ok (verdicts, n)) =
      let decision = decide n (length req.tasks) in
      (
        record {
          db = emit (audited (codes "PLAN_SUBMITTED") plan.plan_id) db;
          plans =
              put req.idempotency_key
                (record plan { verdict = decision; verdict_detail = verdicts }) plans;
        },
        ok (record { decision = decision; task_verdicts = verdicts }),
      )

  -- What follows once the plan's row is new: its shape, then its tasks.
  unfoldable pub take_in :
      PlanRequest
      → Mission
      → RoeRecord
      → State
      → Result Error (List Text)
      → State × Result Error Response
  unfolding plan_row conclude intake_tasks
  take_in req mission roe st (err e) =
      (record st { plans = put req.idempotency_key (plan_row req mission) st.plans }, err e)
  take_in req mission roe st (ok keys) =
      let plan = plan_row req mission in
      conclude req plan (put req.idempotency_key plan st.plans) (
        intake_tasks env plan mission roe keys
          (env.commander_quota - env.count_in_flight (commander_name req.submitted_by)) 0 0
          req.tasks st.db)

  unfoldable pub answer_row :
      PlanRequest
      → Mission
      → RoeRecord
      → State
      → Result Error (Option Plan)
      → State × Result Error Response
  unfolding take_in take_keys
  answer_row req mission roe st (err e) = (st, err e)
  answer_row req mission roe st (ok (some row)) =
      (st, ok (record { decision = decision_from row.verdict; task_verdicts = row.verdict_detail }))
  answer_row req mission roe st (ok none) = take_in req mission roe st (take_keys req.tasks [])

  unfoldable pub admit :
      PlanRequest → State → Result Error (Mission × RoeRecord) → State × Result Error Response
  unfolding answer_row insert_plan plan_row
  admit req st (err e) = (st, err e)
  admit req st (ok (mission, roe)) =
      answer_row req mission roe st (insert_plan (plan_row req mission) st.plans)

  -- `SubmitTaskPlan`.
  unfoldable pub submit_task_plan : ℕ → PlanRequest → State → State × Result Error Response
  unfolding check_plan admit
  submit_task_plan now req st = admit req st (check_plan now req)
