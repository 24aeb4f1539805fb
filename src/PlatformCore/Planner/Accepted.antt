-- ===== src/PlatformCore/Planner/Accepted.antt =====
-- planner.go, the loop over a plan's tasks: a verdict for each, within the quota.
use aegisbastion.Common.{
  All, ◌==◌, ℕ, ◌+◌, ◌≤◌, ◌<◌, suc, ◌≡◌, ◌≢◌, refl, sym, ap, ◌∙◌, inl, inr, false, List, [], ◌∷◌,
  Option, none, some, none≢some, Text, text_eq, find, leb, arith, Result-cases, ok, Bool-cases,
}
use aegisbastion.PlatformCore.Tasks.{Db, Task}
use aegisbastion.PlatformCore.Planner.Types.{
  risk_rank, TaskSpec, Mission, RoeRecord, Reason, TaskVerdict, Plan, Env,
}
use aegisbastion.PlatformCore.Planner.Intake.{
  validate_task, verdict_of, persist_task, intake_tasks, count_if, add_verdict, unless_failed,
}
use aegisbastion.PlatformCore.Planner.Settled.{goal_of, persist_task-IsSettled}

-- The verdicts of a plan's tasks, in order: an accepted task is valid.
abbrev pub Matches : (TaskSpec → Type 0) → List TaskSpec → List TaskVerdict → Type 0
Matches Valid [] [] = Unit {0}
Matches Valid [] (v ∷ vs) = ⊥
Matches Valid (s ∷ ss) [] = ⊥
Matches Valid (s ∷ ss) (v ∷ vs) =
    ((v.task_key ≡ s.task_key) × (v.reason ≡ none → Valid s)) × Matches Valid ss vs

-- Each verdict's task stands in its state: queued if it is accepted, otherwise rejected.
abbrev pub Stored : (ℕ → Text) → ℕ → List TaskVerdict → Db → Type 0
Stored id k [] db = Unit {0}
Stored id k (v ∷ vs) db =
    ((row : Task) × (find (id k) db.tasks ≡ some row) × (row.state ≡ goal_of v.reason))
    × Stored id (suc k) vs db

-- The task has a risk class.
abbrev pub IsRanked : TaskSpec → Type 0
IsRanked s = (risk_rank s.risk_class == 0) ≡ false

-- The number of accepted tasks.
abbrev pub accepted_in : List TaskVerdict → ℕ
accepted_in [] = 0
accepted_in (v ∷ vs) = count_if v.reason (accepted_in vs)

module _ (env : Env) where
  verdict_of-none :
      (spec : TaskSpec) (keys : List Text) (roe : RoeRecord) (commander : Text) (n budget : ℕ)
      → verdict_of env spec keys roe commander n budget ≡ none
      → (validate_task env spec keys roe commander ≡ ok tt) × (n < budget)
  unfolding verdict_of
  verdict_of-none spec keys roe commander n budget h =
      elim (Result-cases (validate_task env spec keys roe commander)) [
        | inl (e, f) ↦ absurd (none≢some (sym (rw (f, verdict_of) at h)))
        | inr (done, y) ↦ elim (Bool-cases (leb budget n)) [
          | inl over ↦ absurd (none≢some (sym (rw (y, over, verdict_of) at h)))
          | inr under ↦ (y, ground (arith, under))
        ]
      ]

  -- What the loop leaves behind, from its round `k` on.
  abbrev pub IsTaken :
      List Text
      → RoeRecord
      → Text
      → ℕ
      → ℕ
      → ℕ
      → List TaskSpec
      → Db
      → Db
      → List TaskVerdict
      → ℕ
      → Type 0
  IsTaken keys roe commander budget k n specs db db' vs m =
      Matches (λ s. validate_task env s keys roe commander ≡ ok tt) specs vs
      × Stored env.new_task k vs db'
      × ((j : ℕ) → j < k → find (env.new_task j) db'.tasks ≡ find (env.new_task j) db.tasks)
      × (m ≡ n + accepted_in vs)
      × (n ≤ budget → m ≤ budget)

  pub intake_tasks-IsTaken :
      (plan : Plan) (mission : Mission) (roe : RoeRecord) (keys : List Text) (budget k n : ℕ)
      (specs : List TaskSpec) (db : Db)
      → ((a b : ℕ) → a ≢ b → text_eq (env.new_task a) (env.new_task b) ≡ false)
      → All IsRanked specs
      → ((j : ℕ) → k ≤ j → find (env.new_task j) db.tasks ≡ none)
      → (db' : Db) × (vs : List TaskVerdict) × (m : ℕ) × (intake_tasks env plan mission roe keys
            budget k n specs db
          ≡ (db', ok (vs, m)))
        × IsTaken keys roe plan.submitted_by budget k n specs db db' vs m
  unfolding intake_tasks
  intake_tasks-IsTaken plan mission roe keys budget k n [] db distinct ranked fresh =
      (db, [], n, refl, (tt, tt, (λ j l. refl), omega arith, (λ l. l)))
  intake_tasks-IsTaken plan mission roe keys budget k n (spec ∷ specs) db distinct ranked fresh =
      let reason = verdict_of env spec keys roe plan.submitted_by n budget in
      let (db1, done, (row, others)) =
        persist_task-IsSettled env (env.new_task k) plan mission spec reason db ranked.0
          (fresh k (omega arith)) in
      let (db', vs, m, rest, (matches, stored, kept, counted, bound)) =
        intake_tasks-IsTaken plan mission roe keys budget (suc k) (count_if reason n) specs db1
          distinct ranked.1
          (λ j l.
            others (env.new_task j) (distinct k j (λ e. omega (arith, e, l)))
            ∙ fresh j (omega (arith, l))) in
      let valid : reason ≡ none
          → (validate_task env spec keys roe plan.submitted_by ≡ ok tt) × (n < budget) =
        verdict_of-none spec keys roe plan.submitted_by n budget in
      (
        db',
        record { task_key = spec.task_key; reason = reason } ∷ vs,
        m,
        run done rest,
        (
          ((refl, λ z. (valid z).0), matches),
          ((row.0, kept k (omega arith) ∙ row.1, row.2), stored),
          (λ j l.
              kept j (omega (arith, l))
              ∙ others (env.new_task j) (distinct k j (λ e. omega (arith, e, l)))),
          counts vs reason counted,
          within reason valid bound,
        ),
      )
    where
      run :
          {reason : Option Reason} {db1 db' : Db} {vs : List TaskVerdict} {m : ℕ}
          → persist_task env (env.new_task k) plan mission spec reason db ≡ (db1, none)
          → intake_tasks env plan mission roe keys budget (suc k) (count_if reason n) specs db1
            ≡ (db', ok (vs, m))
          → unless_failed (persist_task env (env.new_task k) plan mission spec reason db) (λ db2.
            add_verdict
              (record { task_key = spec.task_key; reason = reason })
              (intake_tasks env plan mission roe keys budget (suc k) (count_if reason n) specs db2))
            ≡ (db', ok (record { task_key = spec.task_key; reason = reason } ∷ vs, m))
      run {reason} done rest =
          ap
            (λ p. unless_failed p (λ db2.
              add_verdict (record { task_key = spec.task_key; reason = reason })
                (intake_tasks env plan mission roe keys budget (suc k) (count_if reason n) specs
                  db2)))
            done
          ∙ ap (add_verdict (record { task_key = spec.task_key; reason = reason })) rest

      counts :
          (vs : List TaskVerdict) {m : ℕ} (reason : Option Reason)
          → m ≡ count_if reason n + accepted_in vs
          → m ≡ n + count_if reason (accepted_in vs)
      counts vs none c = omega (arith, c)
      counts vs (some r) c = c

      within :
          {m : ℕ} (reason : Option Reason)
          → (reason ≡ none
              → (validate_task env spec keys roe plan.submitted_by ≡ ok tt) × (n < budget))
          → (count_if reason n ≤ budget → m ≤ budget)
          → n ≤ budget
          → m ≤ budget
      within none valid b l = b ((valid refl).1)
      within (some r) valid b l = b l
