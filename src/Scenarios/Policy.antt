-- ===== src/Scenarios/Policy.antt =====
-- policy.go at concrete inputs.
use aegisbastion.Common.{◌∷◌, ◌++◌, ◌≡◌, refl, Bool, true, false, none, some, List, []}
use aegisbastion.Gatekeeper.Capreg.{RiskClass, r1, lookup}
use aegisbastion.Gatekeeper.Types.{Decision}
use aegisbastion.Gatekeeper.Policy.{DecisionRow, authorize, steps, run_steps, start_eval}
use aegisbastion.Gatekeeper.Policy.Loop.{Decided, run_steps-Decided}
use aegisbastion.Gatekeeper.Policy.Allowed.{IsAuthorized, IsRecorded, authorize-allow}
use aegisbastion.Gatekeeper.Policy.Recorded.{IsAnnounced, authorize-IsAnnounced}
use aegisbastion.Scenarios.World.{services, clock, request, world}

allowed : (authorize (services true) clock request world).1.decision ≡ Decision.allow
unfolding authorize run_steps start_eval lookup aegisbastion.Common.find aegisbastion.Common.text_eq
    aegisbastion.Gatekeeper.Policy.finish aegisbastion.Gatekeeper.Policy.step_auth
    aegisbastion.Gatekeeper.Policy.check_principal aegisbastion.Common.has_prefix
    aegisbastion.Gatekeeper.Policy.check_role aegisbastion.Gatekeeper.Policy.step_revocation
    aegisbastion.Gatekeeper.Policy.check_revocations aegisbastion.Common.any
    aegisbastion.Gatekeeper.Policy.target_revoked aegisbastion.Gatekeeper.Policy.step_roe_active
    aegisbastion.Gatekeeper.Policy.check_roe aegisbastion.Gatekeeper.Policy.step_target_scope
    aegisbastion.Gatekeeper.Policy.check_targets aegisbastion.Gatekeeper.Scopecanon.evaluate
    aegisbastion.Gatekeeper.Scopecanon.canonical aegisbastion.Common.trim_space
    aegisbastion.Common.contains aegisbastion.Common.to_lower aegisbastion.Common.trim_suffix
    aegisbastion.Common.trim_prefix aegisbastion.Common.after_last
    aegisbastion.Gatekeeper.Scopecanon.any_matches
    aegisbastion.Gatekeeper.Scopecanon.match_canonical aegisbastion.Gatekeeper.Scopecanon.must_canon
    aegisbastion.Gatekeeper.Policy.check_inventory aegisbastion.Gatekeeper.Policy.step_capability
    aegisbastion.Gatekeeper.Policy.capability_allowed aegisbastion.Gatekeeper.Policy.covers_prefix
    aegisbastion.Gatekeeper.Policy.risk_rank aegisbastion.Gatekeeper.Policy.step_legal
    aegisbastion.Gatekeeper.Policy.step_approval aegisbastion.Gatekeeper.Policy.needs_approval
    aegisbastion.Gatekeeper.Policy.step_window aegisbastion.Gatekeeper.Policy.step_jurisdiction
    aegisbastion.Common.all aegisbastion.Gatekeeper.Policy.step_rate
    aegisbastion.Gatekeeper.Policy.effective_rps aegisbastion.Gatekeeper.Policy.matched_cap
    aegisbastion.Gatekeeper.Policy.best_cap aegisbastion.Gatekeeper.Policy.take_rate
    aegisbastion.Gatekeeper.Ratelimit.allow
allowed = refl

authorize-allow_example :
    ((risk : RiskClass) × (lookup (services true).registry request.capability ≡ some risk)
      × IsAuthorized (services true) clock request risk world)
    × (request.dry_run ≡ false
        → IsRecorded
            (services true)
            clock
            request
            world
            (authorize (services true) clock request world))
authorize-allow_example = authorize-allow (services true) clock request world allowed

run_steps-Decided_example :
    Decided
      (steps (services true) clock request r1)
      (start_eval world)
      (run_steps (steps (services true) clock request r1) (start_eval world))
run_steps-Decided_example =
    run_steps-Decided (steps (services true) clock request r1) (start_eval world)

known : lookup (services false).registry request.capability ≡ some r1
unfolding lookup aegisbastion.Common.find aegisbastion.Common.text_eq
known = refl

passes : (run_steps (steps (services false) clock request r1) (start_eval world)).1 ≡ none
unfolding run_steps start_eval aegisbastion.Gatekeeper.Policy.step_auth
    aegisbastion.Gatekeeper.Policy.check_principal aegisbastion.Common.text_eq
    aegisbastion.Common.has_prefix aegisbastion.Gatekeeper.Policy.check_role
    aegisbastion.Gatekeeper.Policy.step_revocation aegisbastion.Gatekeeper.Policy.check_revocations
    aegisbastion.Common.any aegisbastion.Gatekeeper.Policy.target_revoked
    aegisbastion.Gatekeeper.Policy.step_roe_active aegisbastion.Gatekeeper.Policy.check_roe
    aegisbastion.Gatekeeper.Policy.step_target_scope aegisbastion.Gatekeeper.Policy.check_targets
    aegisbastion.Gatekeeper.Scopecanon.evaluate aegisbastion.Gatekeeper.Scopecanon.canonical
    aegisbastion.Common.trim_space aegisbastion.Common.contains aegisbastion.Common.to_lower
    aegisbastion.Common.trim_suffix aegisbastion.Common.trim_prefix aegisbastion.Common.after_last
    aegisbastion.Gatekeeper.Scopecanon.any_matches
    aegisbastion.Gatekeeper.Scopecanon.match_canonical aegisbastion.Gatekeeper.Scopecanon.must_canon
    aegisbastion.Gatekeeper.Policy.check_inventory aegisbastion.Gatekeeper.Policy.step_capability
    aegisbastion.Gatekeeper.Policy.capability_allowed aegisbastion.Gatekeeper.Policy.covers_prefix
    aegisbastion.Gatekeeper.Policy.risk_rank aegisbastion.Gatekeeper.Policy.step_legal
    aegisbastion.Gatekeeper.Policy.step_approval aegisbastion.Gatekeeper.Policy.needs_approval
    aegisbastion.Gatekeeper.Policy.step_window aegisbastion.Gatekeeper.Policy.step_jurisdiction
    aegisbastion.Common.all aegisbastion.Gatekeeper.Policy.step_rate
    aegisbastion.Gatekeeper.Policy.effective_rps aegisbastion.Gatekeeper.Policy.matched_cap
    aegisbastion.Common.find aegisbastion.Gatekeeper.Policy.best_cap
    aegisbastion.Gatekeeper.Policy.take_rate aegisbastion.Gatekeeper.Ratelimit.allow
passes = refl

authorize-IsAnnounced_example :
    IsAnnounced
      (services false)
      clock
      request
      world
      (authorize (services false) clock request world).0
      (authorize (services false) clock request world).1
authorize-IsAnnounced_example = authorize-IsAnnounced (services false) clock request world refl
