-- ===== src/PlatformCore/Killswitch/Drained.antt =====
-- killswitch.go: what a mission has left to run after its drain.
use aegisbastion.Common.{
  ◌≡◌, ◌≢◌, refl, inl, inr, Bool, true, false, List, [], ◌∷◌, none, some, Text, text_eq,
  text_eq_refl, find, any, all, filter, map, In, All, filter-In, In-filter, arith, Bool-cases,
  Option-cases, none≢some, sym, ◌∙◌, subst, ap, text_eq_sound,
}
use mathlib.Core.Bool.{true≢false}
use aegisbastion.PlatformCore.Statemachine.{
  TaskState, queued, dispatched, running, killed, can_transition, legal_transitions, state_eq,
  index,
}
use aegisbastion.PlatformCore.Tasks.{Task, Db, Error, transition, store_transition, no_fields}
use aegisbastion.PlatformCore.Tasks.Transitions.{
  IsMoved, transition-ok, transition-err, transition-IsTaken,
}
use aegisbastion.PlatformCore.Results.Outcomes.{release_all_target_leases-tasks, here}
use aegisbastion.PlatformCore.Killswitch.{
  is_pending_work, is_of_mission, tasks_where, in_flight_tasks_for_mission, kill_one, kill_tasks,
}

-- Rows are stored under their own id.
abbrev pub IsKeyed : Db → Type 0
IsKeyed db = (id : Text) (t : Task) → find id db.tasks ≡ some t → t.task_id ≡ id

-- What a test finds is among some tasks.
abbrev pub IsListed : (Task → Bool) → Db → List Task → Type 0
IsListed p db ts = (id : Text) (t : Task) → find id db.tasks ≡ some t → p t ≡ true → In t ts

some-inj : {t u : Task} → some t ≡ some u → t ≡ u
some-inj h = cc

single :
    (s : TaskState)
    → can_transition s killed ≡ true
    → all (λ x. can_transition x killed) (s ∷ []) ≡ true
single s y = unfold all in ground arith

module _ (db : Db) (t : Task) where
  kill_one-tasks :
      (kill_one db t).0.tasks ≡ (transition db t (t.state ∷ []) killed no_fields).0.tasks
  unfolding kill_one
  kill_one-tasks = ground (
    arith,
    release_all_target_leases-tasks (transition db t (t.state ∷ []) killed no_fields).1
        (transition db t (t.state ∷ []) killed no_fields).0,
  )

  kill_one-ok : can_transition t.state killed ≡ true → (kill_one db t).1 ≡ none
  unfolding kill_one transition store_transition all
  kill_one-ok legal = ground arith

module _ (p : Task → Bool) (spares : (t : Task) → t.state ≡ killed → p t ≡ false) where
  -- What a round keeps of the ids, and of the tasks that are found.
  abbrev Kept : List Task → List (Text × Task) → Type 0
  Kept ts m =
      ((id : Text) (t : Task) → find id m ≡ some t → t.task_id ≡ id)
      × ((id : Text) (t : Task) → find id m ≡ some t → p t ≡ true → In t ts)

  moved-Kept :
      (db db' : Db) (t t' : Task) (ts : List Task)
      → IsKeyed db
      → IsListed p db (t ∷ ts)
      → IsMoved db t (t.state ∷ []) killed no_fields db' t'
      → Kept ts db'.tasks
  moved-Kept db db' t t' ts keyed listed moved = (λ id u h. ids id u h, λ id u h k. rest id u h k)
    where
      same :
          (id : Text) (u : Task)
          → text_eq t.task_id id ≡ true
          → find id db'.tasks ≡ some u
          → u ≡ record (moved.row) { state = killed }
      same id u y h = some-inj (
          sym h
          ∙ subst (λ j. find j db'.tasks ≡ some (record (moved.row) { state = killed }))
              (text_eq_sound t.task_id id y) moved.stored)

      ids : (id : Text) (u : Task) → find id db'.tasks ≡ some u → u.task_id ≡ id
      ids id u h = elim (Bool-cases (text_eq t.task_id id)) [
        | inl y ↦
            ap (λ v. v.task_id) (same id u y h)
            ∙ keyed t.task_id moved.row moved.found
            ∙ text_eq_sound t.task_id id y
        | inr n ↦ keyed id u (sym (moved.others id n) ∙ h)
      ]

      rest : (id : Text) (u : Task) → find id db'.tasks ≡ some u → p u ≡ true → In u ts
      rest id u h k = elim (Bool-cases (text_eq t.task_id id)) [
        | inl y ↦ absurd (true≢false (sym k ∙ spares u (ap (λ v. v.state) (same id u y h))))
        | inr n ↦ (elim (listed id u (sym (moved.others id n) ∙ h) k) [
          | inr m ↦ m
          | inl e ↦ absurd (
              true≢false (
                sym (text_eq_refl id)
                ∙ subst (λ j. text_eq j id ≡ false)
                    (ap (λ v. v.task_id) e ∙ keyed id u (sym (moved.others id n) ∙ h)) n))
        ])
      ]

  failed-Kept :
      (db : Db) (t : Task) (ts : List Task) (e : Error)
      → IsKeyed db
      → IsListed p db (t ∷ ts)
      → can_transition t.state killed ≡ true
      → (transition db t (t.state ∷ []) killed no_fields).2 ≡ some e
      → Kept ts db.tasks
  failed-Kept db t ts e keyed listed legal n = (keyed, λ id u h k. rest id u h k)
    where
      rest : (id : Text) (u : Task) → find id db.tasks ≡ some u → p u ≡ true → In u ts
      rest id u h k = elim (listed id u h k) [
        | inr m ↦ m
        | inl same ↦ absurd (
            none≢some (
              sym
                (transition-IsTaken db t (t.state ∷ []) killed t.state no_fields
                  (
                    t,
                    subst (λ j. find j db.tasks ≡ some t)
                        (sym (ap (λ v. v.task_id) same ∙ keyed id u h)) (h ∙ ap some (sym same)),
                    refl,
                  )
                  (single t.state legal) (here t.state)).0
              ∙ n))
      ]

  -- A round keeps the ids and leaves the tasks that are found among the rest.
  kill_one-Kept :
      (db : Db) (t : Task) (ts : List Task)
      → IsKeyed db
      → IsListed p db (t ∷ ts)
      → can_transition t.state killed ≡ true
      → Kept ts (kill_one db t).0.tasks
  kill_one-Kept db t ts keyed listed legal =
      subst (Kept ts) (sym (kill_one-tasks db t))
        (elim (Option-cases (transition db t (t.state ∷ []) killed no_fields).2) [
          | inl n ↦
              moved-Kept db _ t _ ts keyed listed
                (transition-ok db t (t.state ∷ []) killed no_fields n)
          | inr (e, n) ↦
              subst (λ d. Kept ts d.tasks)
                (sym (transition-err db t (t.state ∷ []) killed no_fields e n).0)
                (failed-Kept db t ts e keyed listed legal n)
        ])

  -- The loop returns no error, and leaves nothing to find.
  kill_tasks-cleared :
      (ts : List Task) (db : Db)
      → IsKeyed db
      → IsListed p db ts
      → All (λ t. can_transition t.state killed ≡ true) ts
      → ((kill_tasks ts db).1 ≡ none)
        × ((id : Text) (t : Task) → find id (kill_tasks ts db).0.tasks ≡ some t → p t ≡ false)
  unfolding kill_tasks
  kill_tasks-cleared [] db keyed listed legal = (refl, λ id t h. nothing id t h)
    where
      nothing : (id : Text) (t : Task) → find id db.tasks ≡ some t → p t ≡ false
      nothing id t h = elim (Bool-cases (p t)) [ inl y ↦ absurd (listed id t h y) | inr n ↦ n ]
  kill_tasks-cleared (t ∷ ts) db keyed listed (l, legal) =
      let (keyed', listed') = kill_one-Kept db t ts keyed listed l in
      let rest = kill_tasks-cleared ts (kill_one db t).0 keyed' listed' legal in
      rw (kill_one-ok db t l) rest

-- What is found under a key is among the values.
find-In :
    (k : Text) (m : List (Text × Task)) (t : Task) → find k m ≡ some t → In t (map (λ e. e.1) m)
unfolding find
find-In k [] t h = absurd (none≢some h)
find-In k ((j, u) ∷ m) t h = elim (Bool-cases (text_eq j k)) [
  | inl y ↦ inl (some-inj (ground (arith, h)))
  | inr n ↦ inr (find-In k m t (ground (arith, h)))
]

In-All : {A : Type 0} (P : A → Type 0) (xs : List A) → ((a : A) → In a xs → P a) → All P xs
In-All P [] h = tt
In-All P (x ∷ xs) h = (h x (inl refl), In-All P xs (λ a m. h a (inr m)))

module _ (id : Text) where
  spares_killed : (t : Task) → t.state ≡ killed → is_of_mission id t ≡ false
  unfolding is_of_mission is_pending_work
  spares_killed t e = ground (arith, e)

  may_be_stopped : (t : Task) → is_of_mission id t ≡ true → can_transition t.state killed ≡ true
  unfolding is_of_mission is_pending_work can_transition legal_transitions state_eq index any
  may_be_stopped t h = ground arith

  pub stopped :
      (t : Task)
      → t.mission_id ≡ id
      → is_of_mission id t ≡ false
      → (t.state ≢ queued) × (t.state ≢ dispatched) × (t.state ≢ running)
  unfolding is_of_mission is_pending_work
  stopped t m h =
      let same = subst (λ i. text_eq i id ≡ true) (sym m) (text_eq_refl id) in
      (
        (λ e. ground (arith, same, e, h)),
        (λ e. ground (arith, same, e, h)),
        λ e. ground (arith, same, e, h),
      )

  pub drained :
      (closed db : Db)
      → closed.tasks ≡ db.tasks
      → IsKeyed db
      → ((kill_tasks (in_flight_tasks_for_mission id closed) db).1 ≡ none)
        × ((k : Text) (t : Task)
            → find k (kill_tasks (in_flight_tasks_for_mission id closed) db).0.tasks ≡ some t
            → is_of_mission id t ≡ false)
  unfolding in_flight_tasks_for_mission tasks_where
  drained closed db same keyed = rw same (
      kill_tasks-cleared (is_of_mission id) spares_killed
        (filter (is_of_mission id) (map (λ e. e.1) db.tasks)) db keyed
        (λ k t h y.
          filter-In (is_of_mission id) (map (λ e. e.1) db.tasks) t (find-In k db.tasks t h) y)
        (In-All _ _
          (λ t m. may_be_stopped t (In-filter (is_of_mission id) (map (λ e. e.1) db.tasks) t m).1)))
