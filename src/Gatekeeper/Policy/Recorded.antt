-- ===== src/Gatekeeper/Policy/Recorded.antt =====
-- policy.go, `finish`: what a decision leaves in the database, the audit log and on the bus.
use aegisbastion.Common.{
  if◌then◌else◌, ◌≡◌, ◌⊎◌, inl, inr, false, [], ◌∷◌, ◌++◌, Option, some, arith, sym, subst,
  Option-cases,
}
use aegisbastion.Gatekeeper.Capreg.{RiskClass, lookup}
use aegisbastion.Gatekeeper.Types.{
  DenyReason, Decision, AuthorizationRequest, capability_not_allowed, audit_unavailable,
}
use aegisbastion.Gatekeeper.Policy.{
  Services, Clock, Eval, World, DecisionEvent, decisions, denials, start_eval, authorize, finish,
  event, row, audit_gate, publish, sent,
}
use aegisbastion.Gatekeeper.Policy.Allowed.{authorize-known}

module _ (svc : Services) (clock : Clock) (req : AuthorizationRequest) where
  -- What a decision of a live request leaves behind.
  pub record IsAnnounced (w w' : World) (ev : DecisionEvent) : Type 0 where
    pub allowed :
        ev.decision ≡ Decision.allow
        → (w'.published
            ≡ w.published ++ (if svc.publishes_decisions then (decisions, ev) ∷ [] else []))
          × (w'.rows ≡ w.rows ++ row svc clock req ev ∷ [])
          × (w'.audit_log ≡ w.audit_log ++ ev ∷ [])
    pub denied :
        ev.decision ≡ Decision.deny
        → (w'.published
            ≡ w.published
              ++ ((if svc.publishes_decisions then (decisions, ev) ∷ [] else [])
                  ++ (if svc.publishes_denials then (denials, ev) ∷ [] else [])))
          × ((w'.audit_log ≡ w.audit_log ++ ev ∷ [])
              ⊎ ((w'.audit_log ≡ w.audit_log) × (ev.reasons ≡ audit_unavailable ∷ [])))

  finish-IsAnnounced :
      (w : World) (e : Eval) (risk : RiskClass) (outcome : Option DenyReason)
      → req.dry_run ≡ false
      → IsAnnounced w
          (finish svc clock req w e risk outcome).0
          (finish svc clock req w e risk outcome).1
  unfolding finish event publish audit_gate sent
  finish-IsAnnounced w e risk outcome dry = record {
    allowed = λ h. (ground arith, ground arith, ground arith);
    denied = λ h. (ground arith, ground arith);
  }

  -- A decision on a request that is no dry run goes out on the bus, a denial on the denials' subject
  -- too, wherever the bus takes it; an allow is stored and audited whether it does or not, and a
  -- denial is audited unless it says that the audit log could not be written.
  pub authorize-IsAnnounced :
      (w : World)
      → req.dry_run ≡ false
      → IsAnnounced w (authorize svc clock req w).0 (authorize svc clock req w).1
  unfolding authorize
  authorize-IsAnnounced w dry = elim (Option-cases (lookup svc.registry req.capability)) [
    | inl n ↦
        rw (n, authorize)
          (finish-IsAnnounced w (start_eval w) RiskClass.unspecified (some capability_not_allowed)
            dry)
    | inr (risk, g) ↦
        subst (λ r. IsAnnounced w r.0 r.1) (sym (authorize-known svc clock req w risk g))
          (finish-IsAnnounced w _ risk _ dry)
  ]
