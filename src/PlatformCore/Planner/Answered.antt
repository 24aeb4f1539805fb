-- ===== src/PlatformCore/Planner/Answered.antt =====
-- planner.go, `SubmitTaskPlan`: what a commander may rely on, and what the planner lets through.
use aegisbastion.Common.{any, false, ◌≡◌, false, List, none, text_eq, find, length, Result, ok}
use aegisbastion.PlatformCore.Planner.Types.{
  PlanRequest, Mission, TaskVerdict, PlanDecision, Error, Env, State, Response,
}
use aegisbastion.PlatformCore.Planner.Intake.{decide}
use aegisbastion.PlatformCore.Planner.Submit.{plan_row}
use aegisbastion.PlatformCore.Planner.Accepted.{accepted_in}

abbrev the_answer : PlanDecision → List TaskVerdict → Result Error Response
the_answer d vs = ok (record { decision = d; task_verdicts = vs })

-- The answer to a plan.
abbrev pub answer : PlanRequest → List TaskVerdict → Response
answer req vs = record { decision = decide (accepted_in vs) (length req.tasks); task_verdicts = vs }

module _ (env : Env) where
  -- No plan stands under the key, nor under the id.
  abbrev pub IsNewPlan : PlanRequest → Mission → State → Type 0
  IsNewPlan req mission st =
      (find req.idempotency_key st.plans ≡ none)
      × (any (λ e. text_eq e.1.plan_id (plan_row env req mission).plan_id) st.plans ≡ false)
