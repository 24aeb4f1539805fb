-- ===== src/PlatformCore/Tasks.antt =====
-- The tasks table and the other state that the orchestrator changes (services/platform-core,
-- internal/store/store.go and extra.go), and `transition` of internal/orchestrator/dispatch.go. A move's
-- log entry and commit do not fail here. What goes to other systems is a list of effects, in order.
pub mod Transitions
use aegisbastion.Common.{
  ℕ, ◌≡◌, ◌&&◌, Bool, true, false, not, List, [], ◌∷◌, ◌++◌, Option, none, some, Text, find, put,
  any, all, map, if◌then◌else◌,
}
use aegisbastion.Gatekeeper.Capreg.{RiskClass, r2, r3}
use aegisbastion.PlatformCore.Statemachine.{TaskState, state_eq, can_transition}

pub record Task : Type 0 where
  pub task_id : Text
  pub plan_id : Text
  pub mission_id : Text
  pub task_key : Text
  pub depends_on : List Text
  pub timeout_s : ℕ
  pub capability : Text
  pub risk_class : RiskClass
  pub targets : List Text
  pub attempt : ℕ
  pub max_retries : ℕ
  pub state : TaskState
  pub assigned_agent_id : Text
  pub rejection_reason : Text
  pub result_status : Text
  pub artifact_refs : List Text
  pub targets_touched : List Text
  pub error : Text
  pub finished_at : ℕ

pub data MissionState : Type 0 where
  draft active paused completed planner_degraded killed : MissionState

pub data AgentStatus : Type 0 where
  online offline quarantined : AgentStatus

pub data KillScope : Type 0 where
  global mission : KillScope

-- A row of task_state_transitions.
pub record Move : Type 0 where
  pub task_id : Text
  pub from : Option TaskState
  pub to : TaskState

-- An audit record, a mission event, a lease that is let go, a control.kill, and a renewed watch.
pub data Effect : Type 0 where
  audited : Text → Text → Effect
  mission_event : Text → Text → Effect
  lease_released : Text → Text → Effect
  kill_broadcast : Text → Text → Effect
  roe_forgotten : Text → Effect

pub record Db : Type 0 where
  pub tasks : List (Text × Task)
  pub moves : List Move
  pub missions : List (Text × MissionState)
  pub agents : List (Text × AgentStatus)
  pub kill_switches : List (KillScope × Text)
  pub effects : List Effect

pub data Error : Type 0 where
  not_allowed invalid_transition not_found wrong_agent unspecified_status : Error
  unknown_scope no_revocation : Error
  database_failed audit_failed bus_failed : Error

-- The columns that an update sets beside the state.
abbrev pub Fields : Type 0
Fields = Task → Task

abbrev pub no_fields : Fields
no_fields t = t

abbrev pub emit : Effect → Db → Db
emit e db = record db { effects = db.effects ++ e ∷ [] }

abbrev pub first : List TaskState → Option TaskState
first [] = none
first (s ∷ ss) = some s

module _ (db : Db) where
  -- The rows after `UPDATE platform.tasks`.
  unfoldable pub write : Text → Task → List TaskState → TaskState → Db
  write id row from to = record db {
    tasks = put id row db.tasks;
    moves = db.moves ++ record { task_id = id; from = first from; to = to } ∷ [];
  }

  -- `Store.Transition`, conditional on the state that is stored.
  unfoldable pub store_transition : Text → List TaskState → TaskState → Fields → Db × Option Error
  store_transition id from to fields = elim (find id db.tasks) [
    | none ↦ (db, some invalid_transition)
    | some row ↦
        if any (λ s. state_eq s row.state) from
        then (write id (record (fields row) { state = to }) from to, none)
        else (db, some invalid_transition)
  ]

  -- The caller's copy, once the store has returned.
  abbrev pub moved : Task → TaskState → Db × Option Error → Db × Task × Option Error
  moved t to (db', some e) = (db', t, some e)
  moved t to (db', none) = (db', record t { state = to }, none)

  -- `Orchestrator.transition`: the guard of the state machine, and the caller's copy of the task.
  unfoldable pub transition : Task → List TaskState → TaskState → Fields → Db × Task × Option Error
  transition t from to fields =
      if not (all (λ s. can_transition s to) from)
      then (db, t, some not_allowed)
      else moved t to (store_transition t.task_id from to fields)

  -- `SetMissionState`: does nothing to a mission in another state.
  unfoldable pub set_mission_state : (MissionState → Bool) → Text → MissionState → Db
  set_mission_state from id to = elim (find id db.missions) [
    | none ↦ db
    | some s ↦ if from s then record db { missions = put id to db.missions } else db
  ]

  -- `SetAgentStatus`.
  unfoldable pub set_agent_status : Text → AgentStatus → Db
  set_agent_status id status = elim (find id db.agents) [
    | none ↦ db
    | some s ↦ record db { agents = put id status db.agents }
  ]

-- `releaseLeases`, where leases are wired.
unfoldable pub release_leases : Text → List Text → Db → Db
release_leases owner [] db = db
release_leases owner (target ∷ targets) db =
    release_leases owner targets (emit (lease_released target owner) db)

-- `releaseAllTargetLeases`: only intrusive work holds leases.
unfoldable pub release_all_target_leases : Task → Db → Db
release_all_target_leases t db = elim t.risk_class [
  | r2 ↦ release_leases t.task_id t.targets db
  | r3 ↦ release_leases t.task_id t.targets db
  | _ ↦ db
]
