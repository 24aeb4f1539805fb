-- ===== src/PlatformCore/Reaper/Retries.antt =====
-- scheduler.go, `requeueOrDead`: what becomes of a task whose agent has gone silent.
use aegisbastion.Common.{
  ℕ, ◌+◌, ◌≡◌, ◌≤◌, ◌<◌, refl, ◌⊎◌, true, false, [], ◌∷◌, Option, none, some, find, any, all, arith,
  sym, ◌∙◌, subst, leb,
}
use aegisbastion.PlatformCore.Statemachine.{
  queued, dispatched, running, dead, state_eq, can_transition, legal_transitions, index,
}
use aegisbastion.PlatformCore.Tasks.{
  Task, Db, Effect, Error, transition, no_fields, release_all_target_leases,
}
use aegisbastion.PlatformCore.Tasks.Transitions.{transition-IsTaken, transition-ok}
use aegisbastion.PlatformCore.Results.Outcomes.{release_all_target_leases-tasks, here}
use aegisbastion.PlatformCore.Reaper.{requeue_or_dead, announce}

announce-tasks : (e : Effect) (r : Db × Task × Option Error) → (announce e r).tasks ≡ r.0.tasks
announce-tasks e (db, t, none) = refl
announce-tasks e (db, t, some f) = refl

more : {a b : ℕ} → a < b → leb b a ≡ false
more h = ground arith

le→leb : (a b : ℕ) → a ≤ b → leb a b ≡ true
le→leb a b h = ground arith

some-inj : {t u : Task} → some t ≡ some u → t ≡ u
some-inj h = cc

module _ (db : Db) (t : Task) where
  -- The task as the store has it, in the hands of an agent.
  pub record IsHeld : Type 0 where
    pub stored : find t.task_id db.tasks ≡ some t
    pub held : (t.state ≡ dispatched) ⊎ (t.state ≡ running)

  may_requeue : IsHeld → all (λ s. can_transition s queued) (t.state ∷ []) ≡ true
  unfolding all any can_transition legal_transitions state_eq index
  may_requeue x = ground (arith, x.held)

  may_not_die : IsHeld → all (λ s. can_transition s dead) (t.state ∷ []) ≡ false
  unfolding all any can_transition legal_transitions state_eq index
  may_not_die x = ground (arith, x.held)

  released : Db
  released = release_all_target_leases t db

  retried : Task → Task
  retried r = record r { attempt = t.attempt + 1 }

  stored_still : IsHeld → find t.task_id released.tasks ≡ some t
  unfolding released
  stored_still x =
      subst (λ m. find t.task_id m ≡ some t) (sym (release_all_target_leases-tasks t db)) x.stored

  requeue :
      IsHeld
      → t.attempt < t.max_retries
      → find t.task_id (requeue_or_dead db t).tasks ≡ some (record (retried t) { state = queued })
  unfolding requeue_or_dead released retried
  requeue x h =
      let r = transition released t (t.state ∷ []) queued retried in
      let taken =
        transition-IsTaken released t (t.state ∷ []) queued t.state retried
          (t, stored_still x, refl) (may_requeue x) (here t.state) in
      let moved = transition-ok released t (t.state ∷ []) queued retried taken.0 in
      let same : moved.row ≡ t = some-inj (sym moved.found ∙ stored_still x) in
      rw (more h, requeue_or_dead)
        (subst (λ m. find t.task_id m ≡ some (record (retried t) { state = queued }))
          (sym (announce-tasks _ r))
          (subst (λ y. find t.task_id r.0.tasks ≡ some (record (retried y) { state = queued })) same
            moved.stored))

  stuck : IsHeld → t.max_retries ≤ t.attempt → (requeue_or_dead db t).tasks ≡ db.tasks
  unfolding requeue_or_dead
  stuck x h =
      rw (le→leb t.max_retries t.attempt h, requeue_or_dead)
        (announce-tasks _
            (transition (release_all_target_leases t db) t (t.state ∷ []) dead no_fields)
          ∙ refused
          ∙ release_all_target_leases-tasks t db)
    where
      refused :
          (transition (release_all_target_leases t db) t (t.state ∷ []) dead no_fields).0.tasks
          ≡ (release_all_target_leases t db).tasks
      refused = unfold transition in rw (may_not_die x)

  -- A task that the store has as dispatched or running, as the reaper read it, is queued again,
  -- one attempt later, while it has retries left. With none left it stays in its state: the state
  -- machine has no way from there to DEAD, so the store is not written.
  pub requeue_or_dead-outcome :
      IsHeld
      → (t.attempt < t.max_retries
          → (row : Task) × (find t.task_id (requeue_or_dead db t).tasks ≡ some row)
            × (row.state ≡ queued)
            × (row.attempt ≡ t.attempt + 1))
        × (t.max_retries ≤ t.attempt → (requeue_or_dead db t).tasks ≡ db.tasks)
  unfolding retried
  requeue_or_dead-outcome x =
      (λ h. (record (retried t) { state = queued }, requeue x h, refl, refl), stuck x)
