-- ===== src/Gatekeeper/Types.antt =====
-- The messages of proto/aegisbastion/gatekeeper/v1 that the gatekeeper's services share, with the
-- fields that they read. A message that is not set reads as one with empty fields, as the generated
-- getters do; where the code tests for nil, the field is an option.
use aegisbastion.Common.{ℕ, Bool, List, [], Option, none, Text}
use aegisbastion.Gatekeeper.Capreg.{RiskClass}

pub data RoeStatus : Type 0 where
  unspecified draft pending_approval active suspended expired revoked : RoeStatus

pub record RateCap : Type 0 where
  pub rps : ℕ
  pub max_concurrent : ℕ

pub record BlackoutWindow : Type 0 where
  pub rrule : Text
  pub tz : Text

pub record Constraints : Type 0 where
  pub allowed_capabilities : List Text
  pub max_risk_class : RiskClass
  pub requires_approval_for : List Text
  pub blackout_windows : List BlackoutWindow
  pub jurisdictions_allowed : List Text
  pub data_classes : List Text
  pub rate_caps : List (Text × RateCap)
  pub azure_pentest_notification_id : Text

pub record LegalArtifact : Type 0 where
  pub document_sha256 : Text
  pub storage_uri : Text
  pub verified_by : Text
  pub verified_at : Option ℕ

-- gatekeeper.v1 Scope.
pub record RoeScope : Type 0 where
  pub domains : List Text
  pub cidrs : List Text
  pub explicit_excludes : List Text
  pub asset_group_ids : List Text
  pub cloud_accounts : List Text

pub record Roe : Type 0 where
  pub roe_id : Text
  pub version : ℕ
  pub scope : RoeScope
  pub status : RoeStatus
  pub valid_from : ℕ
  pub valid_until : ℕ
  pub created_by : Text
  pub constraints : Constraints
  pub legal_artifact : Option LegalArtifact

-- A message that is not set.
abbrev pub no_roe : Roe
no_roe = record {
  roe_id = [];
  version = 0;
  scope = record {
    domains = [];
    cidrs = [];
    explicit_excludes = [];
    asset_group_ids = [];
    cloud_accounts = [];
  };
  status = RoeStatus.unspecified;
  valid_from = 0;
  valid_until = 0;
  created_by = [];
  constraints = record {
    allowed_capabilities = [];
    max_risk_class = RiskClass.unspecified;
    requires_approval_for = [];
    blackout_windows = [];
    jurisdictions_allowed = [];
    data_classes = [];
    rate_caps = [];
    azure_pentest_notification_id = [];
  };
  legal_artifact = none;
}

pub data DenyReason : Type 0 where
  unauthenticated forbidden_role : DenyReason
  revoked_global revoked_roe revoked_target revoked_capability : DenyReason
  roe_not_active roe_expired : DenyReason
  target_not_in_scope target_excluded target_unverified : DenyReason
  capability_not_allowed risk_class_exceeded : DenyReason
  legal_artifact_missing approval_missing blackout_window : DenyReason
  jurisdiction_denied data_class_denied rate_limited audit_unavailable : DenyReason

pub data Decision : Type 0 where
  allow deny : Decision

pub record Principal : Type 0 where
  pub kind : Text
  pub id : Text
  pub spiffe_id : Text

pub record TaskContext : Type 0 where
  pub task_id : Text
  pub parent_plan_id : Text
  pub commander : Text

pub record AuthorizationRequest : Type 0 where
  pub request_id : Text
  pub principal : Option Principal
  pub task : TaskContext
  pub capability : Text
  pub targets : List Text
  pub roe_id : Text
  pub roe_version : ℕ
  pub source_region : Text
  pub data_classes_touched : List Text
  pub dry_run : Bool
