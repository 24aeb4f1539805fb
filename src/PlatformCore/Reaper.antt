-- ===== src/PlatformCore/Reaper.antt =====
-- services/platform-core/internal/orchestrator/scheduler.go: `runReaperPass`. The four queries of the
-- store are given with what they return; errors are logged, and the pass goes on.
pub mod Retries
use aegisbastion.Common.{
  ℕ, ◌+◌, ◌≡◌, Bool, true, false, not, List, [], ◌∷◌, Option, none, some, Text, codes, leb,
  if◌then◌else◌,
}
use aegisbastion.PlatformCore.Statemachine.{TaskState, queued, running, dead, killed, expired}
use aegisbastion.PlatformCore.Tasks.{
  Task, Db, Effect, Error, invalid_transition, emit, mission_event, transition, no_fields,
  release_all_target_leases,
}

-- The event of a transition that returns no error.
abbrev pub announce : Effect → Db × Task × Option Error → Db
announce e (db, t, some f) = db
announce e (db, t, none) = emit e db

-- `requeueOrDead`.
unfoldable pub requeue_or_dead : Db → Task → Db
requeue_or_dead db0 t =
    let db = release_all_target_leases t db0 in
    if leb t.max_retries t.attempt
    then announce (mission_event (codes "TASK_DEAD") t.task_id)
        (transition db t (t.state ∷ []) dead no_fields)
    else announce (mission_event (codes "TASK_REDELIVERED") t.task_id)
        (transition db t (t.state ∷ []) queued (λ r. record r { attempt = t.attempt + 1 }))

-- The deadline of a running task: a task that has moved on keeps its state, and its leases go.
unfoldable pub kill_expired : Db → Task → Db
kill_expired db t =
    let (db', t', failed) = transition db t (running ∷ []) killed no_fields in
    let released =
      emit (mission_event (codes "TASK_KILLED") t'.task_id) (release_all_target_leases t' db') in
    elim failed [ none ↦ released | some invalid_transition ↦ released | some _ ↦ db' ]

-- The time to live of a queued task.
unfoldable pub expire_queued : Db → Task → Db
expire_queued db t = let (db', t', failed) = transition db t (queued ∷ []) expired no_fields in db'

-- A loop over tasks.
unfoldable pub for_each : (Db → Task → Db) → List Task → Db → Db
for_each f [] db = db
for_each f (t ∷ ts) db = for_each f ts (f db t)

-- `runReaperPass`: the tasks that missed their acknowledgement, ran out of time, waited too long,
-- and those of agents that have gone offline.
unfoldable pub run_reaper_pass :
    (Db → List Task) → (Db → List Task) → (Db → List Task) → (Db → List Task) → Db → Db
run_reaper_pass stale_dispatched expired_running stale_queued of_offline_agents db0 =
    let db1 = for_each requeue_or_dead (stale_dispatched db0) db0 in
    let db2 = for_each kill_expired (expired_running db1) db1 in
    let db3 = for_each expire_queued (stale_queued db2) db2 in
    for_each requeue_or_dead (of_offline_agents db3) db3
