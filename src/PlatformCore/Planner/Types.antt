-- ===== src/PlatformCore/Planner/Types.antt =====
-- planner.go and roe.go: what the planner reads and keeps. The queries, the RoE of the gatekeeper and
-- the registry of agents are a record of functions; the texts of reasons are left out.
use aegisbastion.Common.{
  ℕ, ◌&&◌, Bool, true, false, not, List, [], Option, none, some, Text, codes, text_eq, any,
  if◌then◌else◌, ltb, ◌||◌,
}
use aegisbastion.Net.{Net}
use aegisbastion.Gatekeeper.Capreg.{RiskClass, unspecified, r0, r1, r2, r3}
use aegisbastion.Gatekeeper.Types.{RoeStatus}
use aegisbastion.PlatformCore.Scope.{Scope, match_capability_pattern}
use aegisbastion.PlatformCore.Tasks.{Db, MissionState}

-- platform.v1 Commander.
pub data Commander : Type 0 where
  cai hexstrike strix pentestgpt other : Commander

-- `commanderName`.
unfoldable pub commander_name : Commander → Text
commander_name cai = codes "cai"
commander_name hexstrike = codes "hexstrike"
commander_name strix = codes "strix"
commander_name pentestgpt = codes "pentestgpt"
commander_name other = []

-- `RiskRank`, one higher throughout, so that -1 is 0: ranks are only compared.
unfoldable pub risk_rank : RiskClass → ℕ
risk_rank unspecified = 0
risk_rank r0 = 1
risk_rank r1 = 2
risk_rank r2 = 3
risk_rank r3 = 4

-- `commanderMaxRisk`.
unfoldable pub commander_max_risk : Text → ℕ
unfolding risk_rank
commander_max_risk commander =
    if text_eq commander (codes "cai")
      || text_eq commander (codes "strix")
      || text_eq commander (codes "pentestgpt")
    then risk_rank r2
    else if text_eq commander (codes "hexstrike")
    then risk_rank r3
    else risk_rank r0

-- platform.v1 TaskSpec, without its parameters.
pub record TaskSpec : Type 0 where
  pub task_key : Text
  pub capability : Text
  pub risk_class : RiskClass
  pub targets : List Text
  pub depends_on : List Text
  pub timeout_s : ℕ
  pub max_retries : ℕ

pub record PlanRequest : Type 0 where
  pub plan_id : Text
  pub mission_id : Text
  pub submitted_by : Commander
  pub delegated_by : Text
  pub idempotency_key : Text
  pub tasks : List TaskSpec

pub record Mission : Type 0 where
  pub mission_id : Text
  pub owning_commander : Text
  pub state : MissionState
  pub roe_id : Text

-- `roeRecord`; a time that is not set is none.
pub record RoeRecord : Type 0 where
  pub roe_id : Text
  pub status : RoeStatus
  pub max_risk_class : RiskClass
  pub allowed_caps : List Text
  pub scope : Scope
  pub valid_from : Option ℕ
  pub valid_until : Option ℕ

abbrev pub before_start : Option ℕ → ℕ → Bool
before_start none now = false
before_start (some t) now = ltb now t

abbrev pub after_end : Option ℕ → ℕ → Bool
after_end none now = false
after_end (some t) now = ltb t now

abbrev pub is_active_status : RoeStatus → Bool
is_active_status RoeStatus.active = true
is_active_status _ = false

-- `Active`.
unfoldable pub active : RoeRecord → ℕ → Bool
active r now =
    is_active_status r.status
    && not (before_start r.valid_from now)
    && not (after_end r.valid_until now)

-- `AllowsCapability`.
unfoldable pub allows_capability : RoeRecord → Text → Bool
allows_capability r capability = any (λ p. match_capability_pattern p capability) r.allowed_caps

pub data Reason : Type 0 where
  missing registry_failed unregistered above_ceiling above_commander above_roe : Reason
  not_allowed out_of_scope unknown_dependency quota_exceeded : Reason

-- `taskVerdict`: no reason means accepted.
pub record TaskVerdict : Type 0 where
  pub task_key : Text
  pub reason : Option Reason

pub data PlanDecision : Type 0 where
  undecided rejected accepted partial : PlanDecision

pub record Plan : Type 0 where
  pub plan_id : Text
  pub mission_id : Text
  pub submitted_by : Text
  pub delegated_by : Text
  pub idempotency_key : Text
  pub verdict : PlanDecision
  pub verdict_detail : List TaskVerdict

pub data Error : Type 0 where
  invalid_argument not_found failed_precondition permission_denied roe_unavailable internal : Error

-- `get_mission` is none where there is none; `capability_exists` is none where the query fails, and
-- otherwise the highest risk class that an agent declares for the capability, if one declares it.
pub record Env : Type 0 where
  pub net : Net
  pub get_mission : Text → Option Mission
  pub roe : Text → Option RoeRecord
  pub capability_exists : Text → Option (Option RiskClass)
  pub count_in_flight : Text → ℕ
  pub commander_quota : ℕ
  pub new_plan : Text
  pub new_task : ℕ → Text
  pub reason_text : Reason → Text

pub record State : Type 0 where
  pub db : Db
  pub plans : List (Text × Plan)

pub record Response : Type 0 where
  pub decision : PlanDecision
  pub task_verdicts : List TaskVerdict
