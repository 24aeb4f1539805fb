-- ===== src/PlatformCore/Tasks/Transitions.antt =====
-- `transition`: a task moves only along the state machine, and only out of the state it is in.
use aegisbastion.Common.{
  ◌≡◌, refl, inl, inr, true, false, List, Option, none, some, Text, find, find-put, if◌then◌else◌,
  any, all, arith, In, any-In, all-In, Option-cases, Bool-cases, text_eq, text_eq_refl, sym, ◌∙◌,
  ap, subst, none≢some,
}
use aegisbastion.PlatformCore.Statemachine.{TaskState, state_eq, state_eq_sound, can_transition}
use aegisbastion.PlatformCore.Tasks.{
  Db, Task, Fields, Error, moved, write, store_transition, transition, invalid_transition,
}

-- The stored task has moved from a state in which it was, along the state machine.
pub record IsMoved (db : Db) (t : Task) (from : List TaskState) (to : TaskState) (fields : Fields)
    (db' : Db) (t' : Task) : Type 0 where
  pub row : Task
  pub found : find t.task_id db.tasks ≡ some row
  pub listed : In row.state from
  pub legal : can_transition row.state to ≡ true
  pub stored : find t.task_id db'.tasks ≡ some (record (fields row) { state = to })
  pub others : (id : Text) → text_eq t.task_id id ≡ false → find id db'.tasks ≡ find id db.tasks
  pub copy : t' ≡ record t { state = to }

pub find-write :
    (db : Db) (id j : Text) (row : Task) (from : List TaskState) (to : TaskState)
    → find j (write db id row from to).tasks ≡ (if text_eq id j then some row else find j db.tasks)
unfolding write
find-write db id j row from to = find-put id j row db.tasks

module _ (db : Db) (t : Task) (from : List TaskState) (to : TaskState) (fields : Fields) where
  pub store_transition-some :
      (row : Task)
      → find t.task_id db.tasks ≡ some row
      → any (λ s. state_eq s row.state) from ≡ true
      → store_transition db t.task_id from to fields
        ≡ (write db t.task_id (record (fields row) { state = to }) from to, none)
  unfolding store_transition
  store_transition-some row g k = rw (g, k, store_transition)

  pub transition-some :
      (row : Task)
      → all (λ s. can_transition s to) from ≡ true
      → store_transition db t.task_id from to fields
        ≡ (write db t.task_id (record (fields row) { state = to }) from to, none)
      → transition db t from to fields ≡ (
        write db t.task_id (record (fields row) { state = to }) from to,
        record t { state = to },
        none,
      )
  unfolding transition
  transition-some row y k = rw (y, transition) (ap (moved db t to) k)

  store_transition-none :
      (store_transition db t.task_id from to fields).1 ≡ none
      → (row : Task) × (find t.task_id db.tasks ≡ some row)
        × (any (λ s. state_eq s row.state) from ≡ true)
  unfolding store_transition
  store_transition-none h = elim (Option-cases (find t.task_id db.tasks)) [
    | inl n ↦ absurd (none≢some (sym (rw (n, store_transition) at h)))
    | inr (row, g) ↦ (elim (Bool-cases (any (λ s. state_eq s row.state) from)) [
      | inr n ↦ absurd (none≢some (sym (rw (g, n, store_transition) at h)))
      | inl k ↦ (row, g, k)
    ])
  ]

  moved-none : (r : Db × Option Error) → (moved db t to r).2 ≡ none → r.1 ≡ none
  moved-none (d, some e) h = absurd (none≢some (sym h))
  moved-none (d, none) h = refl

  -- What `transition` has done when it returns no error, as it stands in the code.
  transition-tests :
      (transition db t from to fields).2 ≡ none
      → (all (λ s. can_transition s to) from ≡ true)
        × ((row : Task) × (find t.task_id db.tasks ≡ some row)
            × (any (λ s. state_eq s row.state) from ≡ true)
            × (transition db t from to fields ≡ (
              write db t.task_id (record (fields row) { state = to }) from to,
              record t { state = to },
              none,
            )))
  unfolding transition
  transition-tests h = elim (Bool-cases (all (λ s. can_transition s to) from)) [
    | inr n ↦ absurd (none≢some (sym (rw (n, transition) at h)))
    | inl y ↦
        (let (row, g, k) = store_transition-none (moved-none _ (rw (y, transition) at h)) in
          (y, (row, g, k, transition-some row y (store_transition-some row g k))))
  ]

  -- A transition without an error has moved the stored task along the state machine, and no other.
  pub transition-ok :
      (transition db t from to fields).2 ≡ none
      → IsMoved db t from to fields
          (transition db t from to fields).0
          (transition db t from to fields).1
  transition-ok h =
      let (legal, (row, g, k, same)) = transition-tests h in
      let (s, m, e) = any-In (λ s. state_eq s row.state) from k in
      let here : s ≡ row.state = state_eq_sound s row.state e in
      subst (λ r. IsMoved db t from to fields r.0 r.1) (sym same)
        (record {
          row = row;
          found = g;
          listed = subst (λ x. In x from) here m;
          legal =
              subst (λ x. can_transition x to ≡ true) here
                (all-In (λ x. can_transition x to) from s legal m);
          stored =
              find-write db t.task_id t.task_id (record (fields row) { state = to }) from to
              ∙ rw (text_eq_refl t.task_id);
          others = λ id n.
              find-write db t.task_id id (record (fields row) { state = to }) from to ∙ rw n;
          copy = refl;
        })

  -- A transition with an error has changed nothing.
  pub transition-err :
      (e : Error)
      → (transition db t from to fields).2 ≡ some e
      → ((transition db t from to fields).0 ≡ db) × ((transition db t from to fields).1 ≡ t)
  unfolding transition store_transition
  transition-err e h = ground arith

-- A task is stored in a state.
abbrev pub HasState : Db → Text → TaskState → Type 0
HasState db id s = (row : Task) × (find id db.tasks ≡ some row) × (row.state ≡ s)

-- What comes out of a transition that is legal and meets the stored state.
abbrev pub IsTaken : Text → TaskState → Task → Db × Task × Option Error → Type 0
IsTaken id to t (db', t', e) = (e ≡ none) × HasState db' id to × (t' ≡ record t { state = to })

module _ (db : Db) (t : Task) (from : List TaskState) (to now : TaskState) (fields : Fields) where
  pub transition-IsTaken :
      HasState db t.task_id now
      → all (λ s. can_transition s to) from ≡ true
      → any (λ s. state_eq s now) from ≡ true
      → IsTaken t.task_id to t (transition db t from to fields)
  transition-IsTaken (row, g, e) legal met =
      subst (IsTaken t.task_id to t)
        (sym (
          transition-some db t from to fields row legal (
            store_transition-some db t from to fields row g
              (subst (λ x. any (λ s. state_eq s x) from ≡ true) (sym e) met))))
        (
          refl,
          (
            record (fields row) { state = to },
            find-write db t.task_id t.task_id (record (fields row) { state = to }) from to
                ∙ rw (text_eq_refl t.task_id),
            refl,
          ),
          refl,
        )

  -- A transition out of another state than the stored one is refused and changes nothing.
  pub transition-refused :
      HasState db t.task_id now
      → all (λ s. can_transition s to) from ≡ true
      → any (λ s. state_eq s now) from ≡ false
      → transition db t from to fields ≡ (db, t, some invalid_transition)
  unfolding transition
  transition-refused (row, g, e) legal missed = rw (legal, transition) (ap (moved db t to) refused)
    where
      refused : store_transition db t.task_id from to fields ≡ (db, some invalid_transition)
      refused =
          unfold store_transition in
          rw (g, subst (λ x. any (λ s. state_eq s x) from ≡ false) (sym e) missed, store_transition)
