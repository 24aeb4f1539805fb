-- ===== src/Gatekeeper/Policy.antt =====
-- services/gatekeeper/internal/policy/policy.go: the decision pipeline. What the service calls
-- through its interfaces is a record of functions; an error of theirs is `none`. The texts of
-- reasons, JSON documents and log lines are left out.
mod State
mod Access
mod Terms
mod Finish
pub mod Loop
pub mod Sound
pub mod Targets
pub mod Limits
pub mod Buckets
pub mod Allowed
pub mod Recorded
unfoldable pub use State.*
unfoldable pub use Access.*
unfoldable pub use Terms.*
unfoldable pub use Finish.*
use aegisbastion.Common.{Option, none, some, List, [], ◌∷◌, Text, Bool, true, false, if◌then◌else◌}
use aegisbastion.Gatekeeper.Types.{
  DenyReason, AuthorizationRequest, capability_not_allowed, Decision,
}
use aegisbastion.Gatekeeper.Capreg.{RiskClass, lookup}

abbrev pub Step : Type 0
Step = Eval → Eval × Option DenyReason

-- The loop over the steps: the first reason decides, then a dependency that failed. No reason means
-- that all steps pass.
unfoldable pub run_steps : List Step → Eval → Eval × Option DenyReason
run_steps [] e = (e, none)
run_steps (step ∷ steps) e =
    let (e', reason) = step e in
    elim reason [
      | some code ↦ (e', some code)
      | none ↦ elim e'.failed [ some code ↦ (e', some code) | none ↦ run_steps steps e' ]
    ]

module _ (svc : Services) (clock : Clock) (req : AuthorizationRequest) where
  -- The hard-coded order, steps 1 to 10.
  abbrev pub steps : RiskClass → List Step
  steps risk =
      step_auth svc req
      ∷ step_revocation svc req
      ∷ step_roe_active svc clock req
      ∷ step_target_scope svc req risk
      ∷ step_capability req risk
      ∷ step_legal req risk
      ∷ step_approval req svc risk
      ∷ step_window svc clock
      ∷ step_jurisdiction req
      ∷ step_rate clock req risk
      ∷ []

  -- `Authorize`.
  unfoldable pub authorize : World → World × DecisionEvent
  unfolding run_steps start_eval
  authorize w = elim (lookup svc.registry req.capability) [
    | none ↦
        finish svc clock req w (start_eval w) RiskClass.unspecified (some capability_not_allowed)
    | some risk ↦
        (let (e, outcome) = run_steps (steps risk) (start_eval w) in
          finish svc clock req w e risk outcome)
  ]
