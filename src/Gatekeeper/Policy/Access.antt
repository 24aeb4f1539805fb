-- ===== src/Gatekeeper/Policy/Access.antt =====
-- policy.go, steps 1 to 4: who asks, what is revoked, the RoE and the targets.
use aegisbastion.Common.{
  ◌&&◌, ◌||◌, Bool, true, false, not, List, [], ◌∷◌, Option, none, some, Text, codes, text_eq,
  has_prefix, is_empty, any, all, ltb, ◌==◌, if◌then◌else◌,
}
use aegisbastion.Gatekeeper.Capreg.{RiskClass}
use aegisbastion.Gatekeeper.Scopecanon.{must_canon, evaluate}
use aegisbastion.Gatekeeper.Revocation.{Row}
use aegisbastion.Gatekeeper.Types.{Roe, RoeStatus, DenyReason, Principal, AuthorizationRequest}
use aegisbastion.Gatekeeper.Policy.State.{
  Services, Clock, Eval, roe_of, dependency_fail, refuse, pass, refuse_if, binds_commander,
  intrusive, found, no_rows, unavailable,
}

module _ (svc : Services) (req : AuthorizationRequest) where
  -- The role check of step 1.
  unfoldable pub check_role : Principal → Eval → Eval × Option DenyReason
  check_role p e = elim (svc.has_permission [] p.id (codes "task:submit")) [
    | none ↦ dependency_fail DenyReason.unauthenticated e
    | some true ↦ pass e
    | some false ↦ (elim (svc.has_permission [] p.id (codes "task:execute")) [
      | none ↦ dependency_fail DenyReason.unauthenticated e
      | some ok ↦ refuse_if (not ok) DenyReason.forbidden_role e
    ])
  ]

  unfoldable pub check_principal : Principal → Eval → Eval × Option DenyReason
  check_principal p e =
      if is_empty p.id
      then refuse DenyReason.unauthenticated e
      else if not (text_eq p.kind (codes "service")) && not (text_eq p.kind (codes "user"))
      then refuse DenyReason.unauthenticated e
      else if not (is_empty p.spiffe_id) && not (has_prefix p.spiffe_id (codes "spiffe://"))
      then refuse DenyReason.unauthenticated e
      else if not (is_empty req.task.commander) && not (binds_commander req.task.commander p)
      then refuse DenyReason.unauthenticated e
      else check_role p e

  -- Step 1, AUTH.
  unfoldable pub step_auth : Eval → Eval × Option DenyReason
  step_auth e = elim req.principal [
    | none ↦ refuse DenyReason.unauthenticated e
    | some p ↦ check_principal p e
  ]

  -- `byScope[scope][value]`.
  abbrev pub names : Text → Text → Row → Bool
  names scope value r = text_eq r.scope scope && text_eq r.scope_value value

  unfoldable pub target_revoked : List Row → Text → Bool
  target_revoked rows t =
      any (names (codes "target") (must_canon svc.net t)) rows
      || any (names (codes "target") t) rows

  unfoldable pub check_revocations : List Row → Option DenyReason
  check_revocations rows =
      if any (λ r. text_eq r.scope (codes "global")) rows
      then some DenyReason.revoked_global
      else if any (names (codes "roe") req.roe_id) rows
      then some DenyReason.revoked_roe
      else if any (target_revoked rows) req.targets
      then some DenyReason.revoked_target
      else if any (names (codes "capability") req.capability) rows
      then some DenyReason.revoked_capability
      else none

  -- Step 2, REVOCATION.
  unfoldable pub step_revocation : Eval → Eval × Option DenyReason
  step_revocation e = elim svc.revocations [
    | none ↦ dependency_fail DenyReason.revoked_global e
    | some rows ↦ (e, check_revocations rows)
  ]

  -- The loop over the targets of step 4.
  unfoldable pub check_targets : List Text → List Text → List Text → Option DenyReason
  check_targets includes excludes [] = none
  check_targets includes excludes (t ∷ ts) =
      let (in_scope, excluded) = evaluate svc.net includes excludes t in
      if excluded
      then some DenyReason.target_excluded
      else if not in_scope
      then some DenyReason.target_not_in_scope
      else check_targets includes excludes ts

  -- The verified inventory of step 4, where it is wired.
  unfoldable pub check_inventory : RiskClass → Eval → Eval × Option DenyReason
  check_inventory risk e = elim svc.inventory [
    | none ↦ pass e
    | some verify ↦
        if intrusive risk
        then (elim (verify req.targets) [
          | none ↦ dependency_fail DenyReason.target_unverified e
          | some verified ↦
              refuse_if (not (all verified req.targets)) DenyReason.target_unverified e
        ])
        else pass e
  ]

  -- Step 4, TARGET_SCOPE.
  unfoldable pub step_target_scope : RiskClass → Eval → Eval × Option DenyReason
  step_target_scope risk e =
      if is_empty req.targets
      then refuse DenyReason.target_not_in_scope e
      else (elim (svc.effective_targets (roe_of e).roe_id (roe_of e).version) [
        | none ↦ dependency_fail DenyReason.target_not_in_scope e
        | some (includes, excludes) ↦ (elim (check_targets includes excludes req.targets) [
          | some code ↦ refuse code e
          | none ↦ check_inventory risk e
        ])
      ])

module _ (svc : Services) (clock : Clock) (req : AuthorizationRequest) where
  -- The tests of step 3 on the RoE.
  unfoldable pub check_roe : Roe → Option DenyReason
  check_roe r = elim r.status [
    | RoeStatus.active ↦
        if ltb clock.roe r.valid_from
        then some DenyReason.roe_not_active
        else if not (ltb clock.roe r.valid_until)
        then some DenyReason.roe_expired
        else if not (req.roe_version == 0) && not (req.roe_version == r.version)
        then some DenyReason.roe_not_active
        else none
    | RoeStatus.expired ↦ some DenyReason.roe_expired
    | _ ↦ some DenyReason.roe_not_active
  ]

  -- Step 3, ROE_ACTIVE.
  unfoldable pub step_roe_active : Eval → Eval × Option DenyReason
  step_roe_active e = elim (svc.load_roe req.roe_id 0) [
    | no_rows ↦ refuse DenyReason.roe_not_active e
    | unavailable ↦ dependency_fail DenyReason.roe_not_active e
    | found r ↦ (record e { roe = some r }, check_roe r)
  ]
