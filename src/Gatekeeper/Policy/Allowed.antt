-- ===== src/Gatekeeper/Policy/Allowed.antt =====
-- policy.go, `Authorize` and `finish` as a whole: what an allow means, and what is left behind.
use aegisbastion.Common.{
  ◌≡◌, ◌≢◌, refl, inl, inr, false, List, [], ◌∷◌, ◌++◌, Option, none, some, Text, In, arith,
  Option-cases, sym, ◌∙◌, subst, none≢some,
}
use aegisbastion.Gatekeeper.Policy.Buckets.{
  step_auth-buckets, step_revocation-buckets, step_roe_active-buckets, step_target_scope-buckets,
  step_capability-buckets, step_legal-buckets, step_approval-buckets, step_window-buckets,
  step_jurisdiction-buckets,
}
use aegisbastion.Gatekeeper.Capreg.{RiskClass, lookup}
use aegisbastion.Gatekeeper.Revocation.{Row}
use aegisbastion.Gatekeeper.Types.{DenyReason, Roe, Principal, AuthorizationRequest, Decision}
use aegisbastion.Gatekeeper.Policy.{
  Services, Clock, Eval, found, World, DecisionEvent, start_eval, steps, run_steps, authorize,
  finish, event, row, audit_gate, publish, step_auth, step_revocation, step_roe_active,
  step_target_scope, step_capability, step_legal, step_approval, step_window, step_jurisdiction,
  step_rate,
}
use aegisbastion.Gatekeeper.Policy.Loop.{run_steps-none}
use aegisbastion.Gatekeeper.Policy.Sound.{
  IsCaller, IsUnrevoked, step_auth-pass, step_revocation-pass,
}
use aegisbastion.Gatekeeper.Policy.Targets.{
  IsInForce, InScope, IsVerified, step_roe_active-pass, step_target_scope-pass,
}
use aegisbastion.Gatekeeper.Policy.Limits.{
  IsCovered, IsLegal, IsApproved, IsPermitted, IsClear, IsWithinRate, step_capability-pass,
  step_legal-pass, step_approval-pass, step_window-pass, step_jurisdiction-pass, step_rate-pass,
}

module _ (svc : Services) (clock : Clock) (req : AuthorizationRequest) where
  -- What the ten steps demand of a request.
  pub record IsAuthorized (risk : RiskClass) (w : World) : Type 0 where
    pub principal : Principal
    pub caller : IsCaller svc req principal
    pub rows : List Row
    pub revocations : svc.revocations ≡ some rows
    pub unrevoked : IsUnrevoked svc req rows
    pub roe : Roe
    pub loaded : svc.load_roe req.roe_id 0 ≡ found roe
    pub in_force : IsInForce clock req roe
    pub targeted : req.targets ≢ []
    pub in_scope :
        (includes : List Text) × (excludes : List Text) × (svc.effective_targets roe.roe_id
            roe.version
          ≡ some (includes, excludes))
        × ((t : Text) → In t req.targets → InScope svc includes excludes t)
    pub verified : IsVerified svc req risk
    pub covered : IsCovered req risk roe
    pub legal : IsLegal req risk roe
    pub approved : (id : Text) × IsApproved req risk svc roe id
    pub clear : IsClear svc clock req risk roe
    pub permitted : IsPermitted req risk roe
    pub within_rate : (e : Eval) × (e.buckets ≡ w.buckets) × IsWithinRate svc clock req risk roe e

  run_steps-IsAuthorized :
      (risk : RiskClass) (w : World)
      → (run_steps (steps svc clock req risk) (start_eval w)).1 ≡ none
      → IsAuthorized risk w
  run_steps-IsAuthorized risk w h =
      let e0 = start_eval w in
      let (p1, h1) = run_steps-none (step_auth svc req) _ e0 h in
      let e1 = (step_auth svc req e0).0 in
      let (p2, h2) = run_steps-none (step_revocation svc req) _ e1 h1 in
      let e2 = (step_revocation svc req e1).0 in
      let (p3, h3) = run_steps-none (step_roe_active svc clock req) _ e2 h2 in
      let e3 = (step_roe_active svc clock req e2).0 in
      let (p4, h4) = run_steps-none (step_target_scope svc req risk) _ e3 h3 in
      let e4 = (step_target_scope svc req risk e3).0 in
      let (p5, h5) = run_steps-none (step_capability req risk) _ e4 h4 in
      let e5 = (step_capability req risk e4).0 in
      let (p6, h6) = run_steps-none (step_legal req risk) _ e5 h5 in
      let e6 = (step_legal req risk e5).0 in
      let (p7, h7) = run_steps-none (step_approval req svc risk) _ e6 h6 in
      let e7 = (step_approval req svc risk e6).0 in
      let (p8, h8) = run_steps-none (step_window svc clock) _ e7 h7 in
      let e8 = (step_window svc clock e7).0 in
      let (p9, h9) = run_steps-none (step_jurisdiction req) _ e8 h8 in
      let e9 = (step_jurisdiction req e8).0 in
      let (p10, h10) = run_steps-none (step_rate clock req risk) _ e9 h9 in
      let (who, caller) = step_auth-pass svc req e0 p1 in
      let (rows, given, unrevoked) = step_revocation-pass svc req e1 p2 in
      let (r, load, in_force, l3) = step_roe_active-pass svc clock req e2 p3 in
      let (scope, targeted, verified, l4) = step_target_scope-pass svc req risk e3 r l3 p4 in
      let (covered, l5) = step_capability-pass req risk e4 r l4 p5 in
      let (legal, l6) = step_legal-pass req risk e5 r l5 p6 in
      let (approved, l7) = step_approval-pass req risk svc e6 r l6 p7 in
      let (clear, l8) = step_window-pass svc clock req risk e7 r l7 p8 in
      let (permitted, l9) = step_jurisdiction-pass req risk e8 r l8 p9 in
      let (rate, l10) = step_rate-pass svc clock req risk e9 r l9 p10 in
      record {
        principal = who;
        caller = caller;
        rows = rows;
        revocations = given;
        unrevoked = unrevoked;
        roe = r;
        loaded = load;
        in_force = in_force;
        targeted = targeted;
        in_scope = scope;
        verified = verified;
        covered = covered;
        legal = legal;
        approved = (e7.approval_id, approved);
        clear = clear;
        permitted = permitted;
        within_rate = (
          e9,
          step_jurisdiction-buckets req e8
              ∙ step_window-buckets svc clock e7
              ∙ step_approval-buckets req svc risk e6
              ∙ step_legal-buckets req risk e5
              ∙ step_capability-buckets req risk e4
              ∙ step_target_scope-buckets svc req risk e3
              ∙ step_roe_active-buckets svc clock req e2
              ∙ step_revocation-buckets svc req e1
              ∙ step_auth-buckets svc req e0
              ∙ unfold start_eval in refl,
          rate,
        );
      }

  -- The row and the audit record of a decision have been added.
  abbrev pub IsRecorded : World → World × DecisionEvent → Type 0
  IsRecorded w (w', ev) =
      (w'.rows ≡ w.rows ++ row svc clock req ev ∷ []) × (w'.audit_log ≡ w.audit_log ++ ev ∷ [])

  -- An allow is a run without a reason; unless it is a dry run, both writes have been made.
  finish-allow :
      (w : World) (e : Eval) (risk : RiskClass) (outcome : Option DenyReason)
      → (finish svc clock req w e risk outcome).1.decision ≡ Decision.allow
      → (outcome ≡ none)
        × (req.dry_run ≡ false → IsRecorded w (finish svc clock req w e risk outcome))
  unfolding finish event publish audit_gate
  finish-allow w e risk outcome h = (ground arith, λ d. (ground arith, ground arith))

  pub authorize-known :
      (w : World) (risk : RiskClass)
      → lookup svc.registry req.capability ≡ some risk
      → authorize svc clock req w
        ≡ finish svc clock req w
            (run_steps (steps svc clock req risk) (start_eval w)).0
            risk
            (run_steps (steps svc clock req risk) (start_eval w)).1
  unfolding authorize
  authorize-known w risk g = rw (g, authorize)

  authorize-unknown :
      (w : World)
      → lookup svc.registry req.capability ≡ none
      → (authorize svc clock req w).1.decision ≢ Decision.allow
  unfolding authorize
  authorize-unknown w n h = absurd (
      none≢some
        (sym (finish-allow w (start_eval w) RiskClass.unspecified _ (rw (n, authorize) at h)).0))

  -- A request is allowed only if the registry knows its capability and every step of the pipeline
  -- has what it demands; and unless it is a dry run, the decision is stored and in the audit log.
  pub authorize-allow :
      (w : World)
      → (authorize svc clock req w).1.decision ≡ Decision.allow
      → ((risk : RiskClass) × (lookup svc.registry req.capability ≡ some risk)
          × IsAuthorized risk w)
        × (req.dry_run ≡ false → IsRecorded w (authorize svc clock req w))
  authorize-allow w h = elim (Option-cases (lookup svc.registry req.capability)) [
    | inl n ↦ absurd (authorize-unknown w n h)
    | inr (risk, g) ↦
        (let (e, outcome) = run_steps (steps svc clock req risk) (start_eval w) in
          let same = authorize-known w risk g in
          let (ran, recorded) =
            finish-allow w e risk outcome (subst (λ r. r.1.decision ≡ Decision.allow) same h) in
          (
            (risk, g, run_steps-IsAuthorized risk w ran),
            λ d. subst (IsRecorded w) (sym same) (recorded d),
          ))
  ]
