-- ===== src/PlatformCore/Killswitch.antt =====
-- services/platform-core/internal/orchestrator/killswitch.go: revocations and operators stop what is
-- running. The queries are those of internal/store/store.go. Which of the calls work is given; the moves
-- of tasks fail only by the state they meet. The table of missions and their RoEs is a parameter.
pub mod Drained
pub mod Mission
use aegisbastion.Common.{
  ◌≡◌, ◌&&◌, ◌||◌, Bool, true, false, not, List, [], ◌∷◌, Option, none, some, Text, codes, text_eq,
  is_empty, member, filter, map, any, if◌then◌else◌,
}
use aegisbastion.Gatekeeper.Revocation
use aegisbastion.PlatformCore.Statemachine.{TaskState, queued, dispatched, running, killed}
use aegisbastion.PlatformCore.Tasks.{
  database_failed, audit_failed, bus_failed, Task, Db, Error, MissionState, KillScope, Effect,
  invalid_transition, no_revocation, unknown_scope, emit, audited, mission_event, kill_broadcast,
  roe_forgotten, transition, no_fields, set_mission_state, release_all_target_leases,
}

-- `state IN ('DISPATCHED','RUNNING')`.
unfoldable pub is_in_flight : TaskState → Bool
is_in_flight dispatched = true
is_in_flight running = true
is_in_flight _ = false

-- `state IN ('QUEUED','DISPATCHED','RUNNING')`.
unfoldable pub is_pending_work : TaskState → Bool
is_pending_work queued = true
is_pending_work dispatched = true
is_pending_work running = true
is_pending_work _ = false

-- `tasksWhere`.
unfoldable pub tasks_where : (Task → Bool) → Db → List Task
tasks_where p db = filter p (map (λ e. e.1) db.tasks)

-- `AllInFlightTasks`.
unfoldable pub all_in_flight_tasks : Db → List Task
unfolding tasks_where is_in_flight
all_in_flight_tasks db = tasks_where (λ t. is_in_flight t.state) db

-- `InFlightTasksForMission`.
unfoldable pub is_of_mission : Text → Task → Bool
is_of_mission id t = text_eq t.mission_id id && is_pending_work t.state

unfoldable pub in_flight_tasks_for_mission : Text → Db → List Task
unfolding tasks_where
in_flight_tasks_for_mission id db = tasks_where (is_of_mission id) db

-- `InFlightTasksMatching`.
unfoldable pub in_flight_tasks_matching : Text → Text → Db → List Task
unfolding tasks_where is_in_flight
in_flight_tasks_matching capability target db =
    tasks_where
      (λ t.
        is_in_flight t.state
        && ((not (is_empty capability) && text_eq t.capability capability)
            || (not (is_empty target) && member target t.targets)))
      db

-- One round of `killTasks`: a task that has moved on is passed over.
unfoldable pub kill_one : Db → Task → Db × Option Error
kill_one db t =
    let (db', t', failed) = transition db t (t.state ∷ []) killed no_fields in
    elim failed [
      | none ↦ (
        emit (mission_event (codes "TASK_KILLED") t'.task_id) (release_all_target_leases t' db'),
        none,
      )
      | some invalid_transition ↦ (db', none)
      | some e ↦ (db', some e)
    ]

abbrev pub then_go : Db × Option Error → (Db → Db × Option Error) → Db × Option Error
then_go (db, none) k = k db
then_go (db, some e) k = (db, some e)

-- `killTasks`.
unfoldable pub kill_tasks : List Task → Db → Db × Option Error
kill_tasks [] db = (db, none)
kill_tasks (t ∷ ts) db = then_go (kill_one db t) (kill_tasks ts)

-- What works in a call, and what others do between the query for tasks and their kill.
pub record Works : Type 0 where
  pub engages : Bool
  pub sets : Bool
  pub lists : Bool
  pub audits : Bool
  pub records : Bool
  pub broadcasts : Bool
  pub meanwhile : Db → Db

-- `if err != nil { return err }` after a call that leaves the state as it is given.
abbrev pub unless_fails : Bool → Error → Db → Db × Option Error
unless_fails true e db = (db, none)
unless_fails false e db = (db, some e)

-- `EngageKillSwitch`.
unfoldable pub engage_kill_switch : Works → KillScope → Text → Db → Db × Option Error
engage_kill_switch works scope id db =
    then_go (unless_fails works.engages database_failed db)
      (λ db'. (record db' { kill_switches = (scope, id) ∷ db'.kill_switches }, none))

abbrev pub may_be_killed : MissionState → Bool
may_be_killed MissionState.draft = true
may_be_killed MissionState.active = true
may_be_killed MissionState.paused = true
may_be_killed MissionState.planner_degraded = true
may_be_killed _ = false

-- The flag and the state of the mission.
unfoldable pub close_mission : Works → Text → Db → Db × Option Error
unfolding engage_kill_switch
close_mission works id db = then_go (engage_kill_switch works KillScope.mission id db) (λ flagged.
    then_go (unless_fails works.sets database_failed flagged)
      (λ db'. (set_mission_state db' may_be_killed id MissionState.killed, none)))

-- A query for tasks, and their kill.
unfoldable pub kill_listed : Works → (Db → List Task) → Db → Db × Option Error
kill_listed works query db =
    then_go (unless_fails works.lists database_failed db)
      (λ db'. kill_tasks (query db') (works.meanwhile db'))

unfoldable pub audit_kill : Works → Text → Db → Db × Option Error
audit_kill works key db =
    then_go (unless_fails works.audits audit_failed db)
      (λ db'. (emit (audited (codes "KILL_SWITCH") key) db', none))

-- `broadcastKill`.
unfoldable pub broadcast_kill : Works → Text → Text → Db → Db × Option Error
broadcast_kill works scope key db =
    then_go (unless_fails works.broadcasts bus_failed db)
      (λ db'. (emit (kill_broadcast scope key) db', none))

-- `killMissionDrain`.
unfoldable pub kill_mission_drain : Works → Text → Db → Db × Option Error
unfolding close_mission kill_listed audit_kill
kill_mission_drain works id db = then_go (close_mission works id db) (λ closed.
    then_go (kill_listed works (in_flight_tasks_for_mission id) closed) (λ killed_db.
      then_go (audit_kill works id killed_db)
        (λ db'. (emit (mission_event (codes "MISSION_KILLED") id) db', none))))

-- `KillMission`.
unfoldable pub kill_mission : Works → Text → Db → Db × Option Error
unfolding kill_mission_drain broadcast_kill
kill_mission works id db =
    then_go (kill_mission_drain works id db) (broadcast_kill works (codes "mission") id)

-- The drains of the missions of an RoE.
unfoldable pub drain_all : Works → List Text → Db → Db × Option Error
drain_all works [] db = (db, none)
drain_all works (id ∷ ids) db = then_go (kill_mission_drain works id db) (drain_all works ids)

-- The kill of some tasks, with its broadcast and its audit record.
unfoldable pub kill_scope : Works → Text → Text → (Db → List Task) → Db → Db × Option Error
kill_scope works scope key query db =
    then_go (kill_listed works query db)
      (λ killed_db. then_go (broadcast_kill works scope key killed_db) (audit_kill works key))

-- `ListMissionsByROE`.
unfoldable pub missions_of : List (Text × Text) → Text → List Text
missions_of bound roe = map (λ e. e.0) (filter (λ e. text_eq e.1 roe) bound)

-- A revocation as it is broadcast.
pub record Notice : Type 0 where
  pub scope : Revocation.Scope
  pub key : Text

-- `HandleRevocation`; `records` says whether ROE_REVOKED is audited.
unfoldable pub handle_revocation :
    Works → List (Text × Text) → Option Notice → Db → Db × Option Error
handle_revocation works bound none db = (db, some no_revocation)
handle_revocation works bound (some rev) db = elim rev.scope [
  | Revocation.Scope.global ↦
      then_go (engage_kill_switch works KillScope.global [] db)
        (kill_scope works (codes "global") [] all_in_flight_tasks)
  | Revocation.Scope.roe ↦
      then_go (unless_fails works.lists database_failed (emit (roe_forgotten rev.key) db))
        (λ listed. then_go (drain_all works (missions_of bound rev.key) listed) (λ drained.
          then_go (broadcast_kill works (codes "roe") rev.key drained) (λ sent.
            then_go (unless_fails works.records audit_failed sent) (λ db'.
              audit_kill works rev.key (emit (audited (codes "ROE_REVOKED") rev.key) db')))))
  | Revocation.Scope.target ↦
      kill_scope works (codes "target") rev.key (in_flight_tasks_matching [] rev.key) db
  | Revocation.Scope.capability ↦
      kill_scope works (codes "capability") rev.key (in_flight_tasks_matching rev.key []) db
  | Revocation.Scope.unspecified ↦ (db, some unknown_scope)
]
