-- ===== src/Gatekeeper/Audit/Ingest.antt =====
-- audit.go: `IngestAuditEvents`, the events that the platform's other services send.
use aegisbastion.Common.{
  ℕ, List, [], ◌∷◌, Option, none, some, Text, codes, length, is_empty, if◌then◌else◌, Result, ok,
  err, ◌>>=◌,
}
use aegisbastion.Gatekeeper.Audit.Types.{
  Input, Event, Row, Outside, Draw, Faults, Error, unknown_kind,
}
use aegisbastion.Gatekeeper.Audit.Recorder.{record_batch}

-- gatekeeper.v1 AuditEventKind.
pub data Kind : Type 0 where
  unspecified authorization_decision token_minted token_revoked roe_created roe_updated : Kind
  roe_activated roe_suspended roe_revoked approval_requested approval_granted : Kind
  approval_rejected execution_started execution_completed execution_halted : Kind
  revocation_issued rbac_changed admin_action : Kind

-- `kindFromProto`, with the stored names.
unfoldable pub kind_name : Kind → Option Text
kind_name unspecified = none
kind_name authorization_decision = some (codes "authorization.decision")
kind_name token_minted = some (codes "token.minted")
kind_name token_revoked = some (codes "token.revoked")
kind_name roe_created = some (codes "roe.created")
kind_name roe_updated = some (codes "roe.updated")
kind_name roe_activated = some (codes "roe.activated")
kind_name roe_suspended = some (codes "roe.suspended")
kind_name roe_revoked = some (codes "roe.revoked")
kind_name approval_requested = some (codes "approval.requested")
kind_name approval_granted = some (codes "approval.granted")
kind_name approval_rejected = some (codes "approval.rejected")
kind_name execution_started = some (codes "execution.started")
kind_name execution_completed = some (codes "execution.completed")
kind_name execution_halted = some (codes "execution.halted")
kind_name revocation_issued = some (codes "revocation.issued")
kind_name rbac_changed = some (codes "rbac.changed")
kind_name admin_action = some (codes "admin.action")

-- gatekeeper.v1 AuditEvent, the fields that are read.
pub record SentEvent : Type 0 where
  pub event_id : Text
  pub kind : Kind
  pub actor_kind : Text
  pub actor_id : Text
  pub spiffe_id : Text
  pub payload_ref : Text
  pub trace_id : Text
  pub occurred_at : Option ℕ

abbrev pub or_unknown : Option Text → Result Error Text
or_unknown none = err unknown_kind
or_unknown (some k) = ok k

module _ {J : Type 0} (o : Outside J) (object_of : List (Text × Text) → J) where
  -- The actor's object; no organization, no subject and no payload.
  unfoldable pub input_of : SentEvent → Text → Input J
  input_of e kind = record {
    event_id = e.event_id;
    org_id = [];
    kind = kind;
    actor = some (
        object_of (
          (codes "kind", e.actor_kind)
          ∷ (codes "id", e.actor_id)
          ∷ (if is_empty e.spiffe_id then [] else (codes "spiffe_id", e.spiffe_id) ∷ [])));
    subject = none;
    payload = none;
    payload_ref = e.payload_ref;
    trace_id = e.trace_id;
    occurred_at = e.occurred_at;
  }

  -- The loop over the events: the first one whose kind is unknown ends it.
  unfoldable pub inputs : List (Draw × SentEvent) → Result Error (List (Draw × Input J))
  unfolding input_of kind_name
  inputs [] = ok []
  inputs ((d, e) ∷ es) = do
    k ← or_unknown (kind_name e.kind)
    rest ← inputs es
    ok ((d, input_of e k) ∷ rest)

  abbrev pub recorded :
      List (Row J) × Result Error (List (ℕ × Event J)) → List (Row J) × Result Error ℕ
  recorded (table, err e) = (table, err e)
  recorded (table, ok es) = (table, ok (length es))

  abbrev pub then_record :
      Result Error (List (Draw × Input J))
      → (Text → Faults)
      → List (Row J)
      → List (Row J) × Result Error ℕ
  then_record (err e) w table = (table, err e)
  then_record (ok ins) w table = recorded (record_batch o w ins table)

  -- `IngestAuditEvents`: the number of events recorded, or an error.
  unfoldable pub ingest_audit_events :
      (Text → Faults) → List (Draw × SentEvent) → List (Row J) → List (Row J) × Result Error ℕ
  unfolding inputs record_batch
  ingest_audit_events w es table = then_record (inputs es) w table
