-- ===== src/Gatekeeper/Policy/Buckets.antt =====
-- policy.go: the steps before RATE leave the limiter's buckets alone.
use aegisbastion.Common.{◌≡◌, arith, Option-cases, inl, inr}
use aegisbastion.Gatekeeper.Capreg.{RiskClass}
use aegisbastion.Gatekeeper.Types.{Principal, AuthorizationRequest}
use aegisbastion.Gatekeeper.Policy.{
  Services, Clock, Eval, step_auth, check_principal, check_role, step_revocation, step_roe_active,
  step_target_scope, check_inventory, step_capability, step_legal, step_approval, step_window,
  step_jurisdiction,
}

module _ (svc : Services) (req : AuthorizationRequest) where
  check_role-buckets : (p : Principal) (e : Eval) → (check_role svc req p e).0.buckets ≡ e.buckets
  unfolding check_role
  check_role-buckets p e = ground arith

  check_principal-buckets :
      (p : Principal) (e : Eval) → (check_principal svc req p e).0.buckets ≡ e.buckets
  unfolding check_principal
  check_principal-buckets p e = ground (arith, check_role-buckets p e)

  pub step_auth-buckets : (e : Eval) → (step_auth svc req e).0.buckets ≡ e.buckets
  unfolding step_auth
  step_auth-buckets e = elim (Option-cases req.principal) [
    | inl n ↦ rw (n, step_auth)
    | inr (p, g) ↦ rw (g, step_auth) (check_principal-buckets p e)
  ]

  pub step_revocation-buckets : (e : Eval) → (step_revocation svc req e).0.buckets ≡ e.buckets
  unfolding step_revocation
  step_revocation-buckets e = ground arith

  check_inventory-buckets :
      (risk : RiskClass) (e : Eval) → (check_inventory svc req risk e).0.buckets ≡ e.buckets
  unfolding check_inventory
  check_inventory-buckets risk e = ground arith

  pub step_target_scope-buckets :
      (risk : RiskClass) (e : Eval) → (step_target_scope svc req risk e).0.buckets ≡ e.buckets
  unfolding step_target_scope
  step_target_scope-buckets risk e = ground (arith, check_inventory-buckets risk e)

module _ (svc : Services) (clock : Clock) where
  pub step_roe_active-buckets :
      (req : AuthorizationRequest) (e : Eval)
      → (step_roe_active svc clock req e).0.buckets ≡ e.buckets
  unfolding step_roe_active
  step_roe_active-buckets req e = ground arith

  pub step_window-buckets : (e : Eval) → (step_window svc clock e).0.buckets ≡ e.buckets
  unfolding step_window
  step_window-buckets e = ground arith

module _ (req : AuthorizationRequest) where
  pub step_capability-buckets :
      (risk : RiskClass) (e : Eval) → (step_capability req risk e).0.buckets ≡ e.buckets
  unfolding step_capability
  step_capability-buckets risk e = ground arith

  pub step_legal-buckets :
      (risk : RiskClass) (e : Eval) → (step_legal req risk e).0.buckets ≡ e.buckets
  unfolding step_legal
  step_legal-buckets risk e = ground arith

  pub step_approval-buckets :
      (svc : Services) (risk : RiskClass) (e : Eval)
      → (step_approval req svc risk e).0.buckets ≡ e.buckets
  unfolding step_approval
  step_approval-buckets svc risk e = ground arith

  pub step_jurisdiction-buckets : (e : Eval) → (step_jurisdiction req e).0.buckets ≡ e.buckets
  unfolding step_jurisdiction
  step_jurisdiction-buckets e = ground arith
