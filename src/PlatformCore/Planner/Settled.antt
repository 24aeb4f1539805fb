-- ===== src/PlatformCore/Planner/Settled.antt =====
-- planner.go, `persistTask`: each task of a plan ends its intake, accepted or rejected.
use aegisbastion.Common.{
  ◌==◌, ◌≡◌, refl, ap, ◌∙◌, true, false, [], ◌∷◌, Option, none, some, Text, text_eq, text_eq_refl,
  find, put, find-put, any, all,
}
use aegisbastion.PlatformCore.Statemachine.{
  TaskState, pending, validating, queued, rejected_unauthorized, state_eq, can_transition, index,
  legal_transitions,
}
use aegisbastion.PlatformCore.Tasks.{Db, Task, Fields, write, transition, no_fields}
use aegisbastion.PlatformCore.Tasks.Transitions.{find-write, store_transition-some, transition-some}
use aegisbastion.PlatformCore.Planner.Types.{risk_rank, TaskSpec, Mission, Reason, Plan, Env}
use aegisbastion.PlatformCore.Planner.Intake.{
  insert_task, move_inserted, task_row, settle, settle_after, failed, persist_task,
}

-- A legal move of a task whose row is in the state it comes from.
move :
    (db : Db) (t row : Task) (from to : TaskState) (fields : Fields)
    → find t.task_id db.tasks ≡ some row
    → any (λ s. state_eq s row.state) (from ∷ []) ≡ true
    → all (λ s. can_transition s to) (from ∷ []) ≡ true
    → transition db t (from ∷ []) to fields ≡ (
      write db t.task_id (record (fields row) { state = to }) (from ∷ []) to,
      record t { state = to },
      none,
    )
move db t row from to fields g s l =
    transition-some db t (from ∷ []) to fields row l
      (store_transition-some db t (from ∷ []) to fields row g s)

abbrev pub goal_of : Option Reason → TaskState
goal_of none = queued
goal_of (some r) = rejected_unauthorized

-- The task's row is in a state, and no other row is touched.
abbrev pub IsSettled : Text → TaskState → Db → Db → Type 0
IsSettled id s db db' =
    ((row : Task) × (find id db'.tasks ≡ some row) × (row.state ≡ s))
    × ((j : Text) → text_eq id j ≡ false → find j db'.tasks ≡ find j db.tasks)

module _ (env : Env) where
  -- From the row as it is inserted.
  abbrev inserted : Text → Plan → Mission → TaskSpec → Db → Db
  inserted id plan mission spec db = record db {
    tasks = put id (task_row env id plan mission spec) db.tasks;
  }

  abbrev checked : Text → Plan → Mission → TaskSpec → Db → Db
  checked id plan mission spec db =
      write (inserted id plan mission spec db) id
        (record (task_row env id plan mission spec) { state = validating }) (pending ∷ [])
        validating

  last_fields : Option Reason → Fields
  last_fields none row = row
  last_fields (some r) row = record row { rejection_reason = env.reason_text r }

  found_inserted :
      (id : Text) (plan : Plan) (mission : Mission) (spec : TaskSpec) (db : Db)
      → find id (inserted id plan mission spec db).tasks ≡ some (task_row env id plan mission spec)
  found_inserted id plan mission spec db =
      find-put id id (task_row env id plan mission spec) db.tasks ∙ rw (text_eq_refl id) refl

  found_checked :
      (id : Text) (plan : Plan) (mission : Mission) (spec : TaskSpec) (db : Db)
      → find id (checked id plan mission spec db).tasks
        ≡ some (record (task_row env id plan mission spec) { state = validating })
  found_checked id plan mission spec db =
      find-write (inserted id plan mission spec db) id id
        (record (task_row env id plan mission spec) { state = validating }) (pending ∷ [])
        validating
      ∙ rw (text_eq_refl id) refl

  insert_task-new :
      (id : Text) (plan : Plan) (mission : Mission) (spec : TaskSpec) (db : Db)
      → (risk_rank spec.risk_class == 0) ≡ false
      → find id db.tasks ≡ none
      → insert_task env id (task_row env id plan mission spec) db
        ≡ (inserted id plan mission spec db, none)
  unfolding insert_task task_row
  insert_task-new id plan mission spec db ranked fresh = rw (ranked, fresh, insert_task) refl

  persist_task-runs :
      (id : Text) (plan : Plan) (mission : Mission) (spec : TaskSpec) (reason : Option Reason)
      (db : Db)
      → (risk_rank spec.risk_class == 0) ≡ false
      → find id db.tasks ≡ none
      → (fields : Fields) × (persist_task env id plan mission spec reason db ≡ (
        write
            (checked id plan mission spec db)
            id
            (record (fields (record (task_row env id plan mission spec) { state = validating })) {
              state = goal_of reason;
            })
            (validating ∷ [])
            (goal_of reason),
        none,
      ))
  unfolding persist_task insert_task move_inserted settle_after settle task_row any all state_eq
      index can_transition legal_transitions
  persist_task-runs id plan mission spec none db ranked fresh = (
    no_fields,
    ap (move_inserted env none (task_row env id plan mission spec))
          (insert_task-new id plan mission spec db ranked fresh)
        ∙ ap (settle_after env none) (
            move (inserted id plan mission spec db) (task_row env id plan mission spec)
              (task_row env id plan mission spec) pending validating no_fields
              (found_inserted id plan mission spec db) refl refl)
        ∙ ap (λ p. (p.0, failed env p.2))
            (move (checked id plan mission spec db)
              (record (task_row env id plan mission spec) { state = validating })
              (record (task_row env id plan mission spec) { state = validating }) validating queued
              no_fields (found_checked id plan mission spec db) refl refl),
  )
  persist_task-runs id plan mission spec (some r) db ranked fresh = (
    (λ row. record row { rejection_reason = env.reason_text r }),
    ap (move_inserted env (some r) (task_row env id plan mission spec))
          (insert_task-new id plan mission spec db ranked fresh)
        ∙ ap (settle_after env (some r)) (
            move (inserted id plan mission spec db) (task_row env id plan mission spec)
              (task_row env id plan mission spec) pending validating no_fields
              (found_inserted id plan mission spec db) refl refl)
        ∙ ap (λ p. (p.0, failed env p.2))
            (move (checked id plan mission spec db)
              (record (task_row env id plan mission spec) { state = validating })
              (record (task_row env id plan mission spec) { state = validating }) validating
              rejected_unauthorized (λ row. record row { rejection_reason = env.reason_text r })
              (found_checked id plan mission spec db) refl refl),
  )

  pub persist_task-IsSettled :
      (id : Text) (plan : Plan) (mission : Mission) (spec : TaskSpec) (reason : Option Reason)
      (db : Db)
      → (risk_rank spec.risk_class == 0) ≡ false
      → find id db.tasks ≡ none
      → (db' : Db) × (persist_task env id plan mission spec reason db ≡ (db', none))
        × IsSettled id (goal_of reason) db db'
  persist_task-IsSettled id plan mission spec reason db ranked fresh =
      let (fields, e) = persist_task-runs id plan mission spec reason db ranked fresh in
      let row : Task =
        record (fields (record (task_row env id plan mission spec) { state = validating })) {
          state = goal_of reason;
        } in
      (
        write (checked id plan mission spec db) id row (validating ∷ []) (goal_of reason),
        e,
        (
          (
            row,
            find-write (checked id plan mission spec db) id id row (validating ∷ [])
                  (goal_of reason)
                ∙ rw (text_eq_refl id) refl,
            refl,
          ),
          λ j n.
              find-write (checked id plan mission spec db) id j row (validating ∷ [])
                (goal_of reason)
              ∙ rw n refl
              ∙ find-write (inserted id plan mission spec db) id j
                  (record (task_row env id plan mission spec) { state = validating }) (pending ∷ [])
                  validating
              ∙ rw n refl
              ∙ find-put id j (task_row env id plan mission spec) db.tasks
              ∙ rw n refl,
        ),
      )
