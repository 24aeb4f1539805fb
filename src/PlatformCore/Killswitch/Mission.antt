-- ===== src/PlatformCore/Killswitch/Mission.antt =====
-- killswitch.go: `KillMission` as a whole, and what fails in it.
use aegisbastion.Common.{
  codes, Option, ◌↔◌, ◌≡◌, ◌≢◌, refl, Bool, true, false, none, some, Text, find, arith, none≢some,
  sym, ◌∙◌, subst, ap,
}
use aegisbastion.PlatformCore.Statemachine.{queued, dispatched, running}
use aegisbastion.PlatformCore.Tasks.{
  mission_event, emit, database_failed, Task, Db, Error, set_mission_state,
}
use aegisbastion.PlatformCore.Killswitch.{
  Works, then_go, unless_fails, kill_listed, audit_kill, broadcast_kill, is_of_mission,
  in_flight_tasks_for_mission, close_mission, kill_mission_drain, kill_mission, engage_kill_switch,
}
use aegisbastion.PlatformCore.Killswitch.Drained.{IsKeyed, stopped, drained}

-- What a step with a chain of others comes to, where it returns no error.
then_go-none :
    (r : Db × Option Error) (k : Db → Db × Option Error)
    → (then_go r k).1 ≡ none
    → (r.1 ≡ none) × ((k r.0).1 ≡ none) × ((then_go r k).0 ≡ (k r.0).0)
then_go-none (db, none) k h = (refl, h, refl)
then_go-none (db, some e) k h = absurd (none≢some (sym h))

-- Every call of the kill works.
abbrev pub AllWork : Works → Type 0
AllWork works =
    (works.engages ≡ true)
    × (works.sets ≡ true)
    × (works.lists ≡ true)
    × (works.audits ≡ true)
    × (works.broadcasts ≡ true)

-- No task changes between the query and the kills.
abbrev pub Undisturbed : Works → Type 0
Undisturbed works = (db : Db) → (works.meanwhile db).tasks ≡ db.tasks

then_go-on : (r : Db × Option Error) (k : Db → Db × Option Error) → r.1 ≡ none → then_go r k ≡ k r.0
then_go-on (db, none) k h = refl
then_go-on (db, some e) k h = absurd (none≢some (sym h))

unless_fails-none : (b : Bool) (e : Error) (db : Db) → (unless_fails b e db).1 ≡ none → b ≡ true
unless_fails-none true e db h = refl
unless_fails-none false e db h = absurd (none≢some (sym h))

module _ (works : Works) (id : Text) where
  close_mission-tasks : (db : Db) → (close_mission works id db).0.tasks ≡ db.tasks
  unfolding close_mission set_mission_state engage_kill_switch
  close_mission-tasks db = ground arith

  close_mission_iff :
      (db : Db)
      → ((close_mission works id db).1 ≡ none) ↔ ((works.engages ≡ true) × (works.sets ≡ true))
  unfolding close_mission engage_kill_switch
  close_mission_iff db =
      ((λ h. (ground (arith, h), ground (arith, h))), λ (a, b). rw (a, b, close_mission) refl)

  audit_kill_iff :
      (db : Db)
      → (((audit_kill works id db).1 ≡ none) ↔ (works.audits ≡ true))
        × ((audit_kill works id db).0.tasks ≡ db.tasks)
  unfolding audit_kill
  audit_kill_iff db = (((λ h. ground arith), λ a. rw (a, audit_kill) refl), ground arith)

  broadcast_kill_iff :
      (scope : Text) (db : Db)
      → (((broadcast_kill works scope id db).1 ≡ none) ↔ (works.broadcasts ≡ true))
        × ((broadcast_kill works scope id db).0.tasks ≡ db.tasks)
  unfolding broadcast_kill
  broadcast_kill_iff scope db =
      (((λ h. ground arith), λ a. rw (a, broadcast_kill) refl), ground arith)

  kill_listed_iff :
      (db : Db)
      → IsKeyed db
      → Undisturbed works
      → ((kill_listed works (in_flight_tasks_for_mission id) db).1 ≡ none) ↔ (works.lists ≡ true)
  unfolding kill_listed
  kill_listed_iff db keyed calm = (
    (λ h.
        unless_fails-none works.lists database_failed db
          (then_go-none (unless_fails works.lists database_failed db) _ h).0),
    (λ a.
        rw (a, kill_listed)
          (drained id db (works.meanwhile db) (sym (calm db))
            (λ k t f. keyed k t (subst (λ m. find k m ≡ some t) (calm db) f))).0),
  )

  kill_listed-cleared :
      (db : Db)
      → IsKeyed db
      → Undisturbed works
      → works.lists ≡ true
      → (k : Text) (t : Task)
      → find k (kill_listed works (in_flight_tasks_for_mission id) db).0.tasks ≡ some t
      → is_of_mission id t ≡ false
  unfolding kill_listed
  kill_listed-cleared db keyed calm a k t f =
      (drained id db (works.meanwhile db) (sym (calm db))
          (λ j u g. keyed j u (subst (λ m. find j m ≡ some u) (calm db) g))).1
        k t (rw (a, kill_listed) at f)

  IsKeyed-after : (db : Db) → IsKeyed db → IsKeyed (close_mission works id db).0
  IsKeyed-after db keyed k t h =
      keyed k t (subst (λ m. find k m ≡ some t) (close_mission-tasks db) h)

  -- A drain returns no error exactly when its four calls work, and then has left nothing to find.
  drain-outcome :
      (db : Db)
      → IsKeyed db
      → Undisturbed works
      → (((kill_mission_drain works id db).1 ≡ none) ↔ (
          (works.engages ≡ true)
          × (works.sets ≡ true)
          × (works.lists ≡ true)
          × (works.audits ≡ true)))
        × ((kill_mission_drain works id db).1 ≡ none
            → (k : Text) (t : Task) → find k (kill_mission_drain works id db).0.tasks ≡ some t
            → is_of_mission id t ≡ false)
  unfolding kill_mission_drain
  drain-outcome db keyed calm = ((fore, back), cleared)
    where
      closed : Db
      closed = (close_mission works id db).0

      killed_db : Db
      killed_db = (kill_listed works (in_flight_tasks_for_mission id) closed).0

      announce : Db → Db × Option Error
      announce db' = (emit (mission_event (codes "MISSION_KILLED") id) db', none)

      audit : Db → Db × Option Error
      audit k = then_go (audit_kill works id k) announce

      listed : Db → Db × Option Error
      listed c = then_go (kill_listed works (in_flight_tasks_for_mission id) c) audit

      fore :
          (kill_mission_drain works id db).1 ≡ none
          → (works.engages ≡ true)
            × (works.sets ≡ true)
            × (works.lists ≡ true)
            × (works.audits ≡ true)
      fore h =
          let (a, h1, _) = then_go-none (close_mission works id db) listed h in
          let (b, h2, _) =
            then_go-none (kill_listed works (in_flight_tasks_for_mission id) closed) audit h1 in
          let (c, _, _) = then_go-none (audit_kill works id killed_db) announce h2 in
          let (e, f) = (close_mission_iff db).0 a in
          (
            e,
            f,
            (kill_listed_iff closed (IsKeyed-after db keyed) calm).0 b,
            (audit_kill_iff killed_db).0.0 c,
          )

      back :
          (works.engages ≡ true)
            × (works.sets ≡ true)
            × (works.lists ≡ true)
            × (works.audits ≡ true)
          → (kill_mission_drain works id db).1 ≡ none
      back (a, b, c, d) =
          ap (λ r. r.1)
            (then_go-on (close_mission works id db) listed ((close_mission_iff db).1 (a, b))
              ∙ then_go-on (kill_listed works (in_flight_tasks_for_mission id) closed) audit
                  ((kill_listed_iff closed (IsKeyed-after db keyed) calm).1 c)
              ∙ then_go-on (audit_kill works id killed_db) announce
                  ((audit_kill_iff killed_db).0.1 d))

      cleared :
          (kill_mission_drain works id db).1 ≡ none
          → (k : Text) (t : Task) → find k (kill_mission_drain works id db).0.tasks ≡ some t
          → is_of_mission id t ≡ false
      cleared h k t f =
          let (a, h1, e1) = then_go-none (close_mission works id db) listed h in
          let (b, h2, e2) =
            then_go-none (kill_listed works (in_flight_tasks_for_mission id) closed) audit h1 in
          let (c, _, e3) = then_go-none (audit_kill works id killed_db) announce h2 in
          kill_listed-cleared closed (IsKeyed-after db keyed) calm
            ((kill_listed_iff closed (IsKeyed-after db keyed) calm).0 b) k t
            (subst (λ m. find k m ≡ some t)
              (ap (λ d. d.tasks) (e1 ∙ e2 ∙ e3) ∙ (audit_kill_iff killed_db).1) f)

  -- Killing a mission returns no error exactly when its calls of the database, the audit log and the
  -- bus work, the moves of tasks apart, and then none of its tasks is stored as queued, dispatched or
  -- running. Tasks are stored under their ids, and none changes between the query and the kills.
  pub kill_mission-cleared :
      (db : Db)
      → IsKeyed db
      → Undisturbed works
      → (((kill_mission works id db).1 ≡ none) ↔ AllWork works)
        × ((kill_mission works id db).1 ≡ none
            → (k : Text) (t : Task) → find k (kill_mission works id db).0.tasks ≡ some t
            → t.mission_id ≡ id
            → (t.state ≢ queued) × (t.state ≢ dispatched) × (t.state ≢ running))
  unfolding kill_mission
  kill_mission-cleared db keyed calm =
      let drained_db = (kill_mission_drain works id db).0 in
      let (outcome, clear) = drain-outcome db keyed calm in
      let (told, same) = broadcast_kill_iff (codes "mission") drained_db in
      let last = broadcast_kill works (codes "mission") id in
      (
        (
          (λ h.
              let (a, b, _) = then_go-none (kill_mission_drain works id db) last h in
              let (w, x, y, z) = outcome.0 a in (w, x, y, z, told.0 b)),
          (λ (w, x, y, z, v).
              ap (λ r. r.1)
                (then_go-on (kill_mission_drain works id db) last (outcome.1 (w, x, y, z)))
              ∙ told.1 v),
        ),
        (λ h k t f m.
            let (a, b, e) = then_go-none (kill_mission_drain works id db) last h in
            stopped id t m
              (clear a k t (subst (λ n. find k n ≡ some t) (ap (λ d. d.tasks) e ∙ same) f))),
      )
