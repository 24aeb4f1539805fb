-- ===== src/Gatekeeper/Policy/Finish.antt =====
-- policy.go, `finish` and `auditGate`: the decision is recorded, or it is a denial.
use Prim.Native.Nat.{◌^◌}
use aegisbastion.Common.{
  ℕ, ◌-◌, ◌%◌, List, [], ◌∷◌, ◌++◌, Option, none, some, Text, is_empty, if◌then◌else◌,
}
use aegisbastion.Gatekeeper.Capreg.{RiskClass}
use aegisbastion.Gatekeeper.Ratelimit.{Buckets}
use aegisbastion.Gatekeeper.Types.{DenyReason, Decision, AuthorizationRequest, audit_unavailable}
use aegisbastion.Gatekeeper.Policy.State.{Services, Clock, Eval, roe_of}

pub record DecisionEvent : Type 0 where
  pub decision_id : Text
  pub request_id : Text
  pub decision : Decision
  pub reasons : List DenyReason
  pub risk_class : RiskClass
  pub roe_id : Text
  pub roe_version : ℕ
  pub eval_latency_ms : ℕ
  pub retry_after_ms : ℕ
  pub decided_at : ℕ

-- A row of authz_decisions: what `MintToken` reads.
pub record DecisionRow : Type 0 where
  pub decision_id : Text
  pub task_id : Text
  pub capability : Text
  pub targets : List Text
  pub roe_id : Text
  pub roe_version : ℕ
  pub risk_class : RiskClass
  pub decision : Decision

pub data Subject : Type 0 where
  decisions denials : Subject

-- What the service changes, and the identifiers that it would draw next.
pub record World : Type 0 where
  pub buckets : Buckets
  pub rows : List DecisionRow
  pub audit_log : List DecisionEvent
  pub published : List (Subject × DecisionEvent)
  pub next_decision : Text
  pub next_request : Text

unfoldable pub start_eval : World → Eval
start_eval w = record {
  roe = none;
  approval_id = [];
  retry_after_ms = 0;
  failed = none;
  buckets = w.buckets;
}

abbrev pub decision_of : Option DenyReason → Decision
decision_of none = Decision.allow
decision_of (some code) = Decision.deny

abbrev pub reasons_of : Option DenyReason → List DenyReason
reasons_of none = []
reasons_of (some code) = code ∷ []

module _ (svc : Services) (clock : Clock) (req : AuthorizationRequest) where
  unfoldable pub event : World → Eval → RiskClass → Option DenyReason → DecisionEvent
  event w e risk outcome = record {
    decision_id = w.next_decision;
    request_id = if is_empty req.request_id then w.next_request else req.request_id;
    decision = decision_of outcome;
    reasons = reasons_of outcome;
    risk_class = risk;
    roe_id = req.roe_id;
    roe_version = (roe_of e).version;
    eval_latency_ms = (clock.finish - clock.start) % 2 ^ 32;
    retry_after_ms = e.retry_after_ms;
    decided_at = clock.finish;
  }

  -- `persistDecision`.
  unfoldable pub row : DecisionEvent → DecisionRow
  row ev = record {
    decision_id = ev.decision_id;
    task_id = req.task.task_id;
    capability = req.capability;
    targets = req.targets;
    roe_id = ev.roe_id;
    roe_version = ev.roe_version;
    risk_class = ev.risk_class;
    decision = ev.decision;
  }

  -- What the bus takes of an event: each subject may fail, which changes nothing else.
  unfoldable pub sent : DecisionEvent → List (Subject × DecisionEvent)
  sent ev = (if svc.publishes_decisions then (decisions, ev) ∷ [] else []) ++ (elim ev.decision [
    | Decision.allow ↦ []
    | Decision.deny ↦ (if svc.publishes_denials then (denials, ev) ∷ [] else [])
  ])

  -- `auditGate`.
  unfoldable pub audit_gate : World → DecisionEvent → World × DecisionEvent
  unfolding sent
  audit_gate w ev =
      let ev' : DecisionEvent = record ev {
        decision = Decision.deny;
        reasons = audit_unavailable ∷ [];
      } in
      (record w { published = w.published ++ sent ev' }, ev')

  -- A recorded decision goes out.
  unfoldable pub publish : World → DecisionEvent → World
  unfolding sent
  publish w ev = record w { published = w.published ++ sent ev }

  -- `finish`, step 11 included.
  unfoldable pub finish : World → Eval → RiskClass → Option DenyReason → World × DecisionEvent
  unfolding event row audit_gate publish
  finish w0 e risk outcome =
      let w : World = record w0 { buckets = e.buckets } in
      let ev = event w e risk outcome in
      if req.dry_run
      then (w, ev)
      else if svc.persists
      then (let w' : World = record w { rows = w.rows ++ row ev ∷ [] } in
          if svc.audits
          then (publish (record w' { audit_log = w'.audit_log ++ ev ∷ [] }) ev, ev)
          else audit_gate w' ev)
      else audit_gate w ev
