-- ===== src/PlatformCore/Planner/Valid.antt =====
-- planner.go, `validateTask`: what an accepted task has.
use aegisbastion.Common.{
  ℕ, ◌≤◌, ◌≡◌, refl, Bool, true, false, not, List, [], ◌∷◌, Option, none, some, Text, is_empty, all,
  member, In, all-In, member_iff, ltb, ◌==◌, ◌||◌, arith, Result, ok, err, reject_if, bind-ok,
  reject_if-ok,
}
use aegisbastion.Gatekeeper.Capreg.{RiskClass}
use aegisbastion.PlatformCore.Scope.{check_all, check, in_scope}
use aegisbastion.PlatformCore.Scope.Verdicts.{check_all_iff}
use aegisbastion.PlatformCore.Planner.Types.{
  risk_rank, commander_max_risk, TaskSpec, RoeRecord, allows_capability, missing, above_ceiling,
  above_commander, above_roe, not_allowed, out_of_scope, unknown_dependency, TaskVerdict, Env,
}
use aegisbastion.PlatformCore.Planner.Intake.{ceiling_of, is_error, validate_task}
use aegisbastion.PlatformCore.Planner.Accepted.{Matches}

ceiling_of-ok :
    (o : Option (Option RiskClass)) (risk : RiskClass)
    → ceiling_of o ≡ ok risk
    → o ≡ some (some risk)
ceiling_of-ok none risk h = cc
ceiling_of-ok (some none) risk h = cc
ceiling_of-ok (some (some r)) risk h = cc

not_error {κ} :
    {E : Type 0} {A : Type κ} (r : Result E A) → is_error r ≡ false → (a : A) × (r ≡ ok a)
not_error (err e) h = cc
not_error (ok a) h = (a, refl)

module _ (env : Env) where
  -- What a task must have for the planner to queue it.
  pub record IsValid (keys : List Text) (roe : RoeRecord) (commander : Text) (spec : TaskSpec)
      : Type 0 where
    pub ceiling : RiskClass
    pub declared : env.capability_exists spec.capability ≡ some (some ceiling)
    pub under_ceiling : risk_rank spec.risk_class ≤ risk_rank ceiling
    pub under_commander : risk_rank spec.risk_class ≤ commander_max_risk commander
    pub under_roe : risk_rank spec.risk_class ≤ risk_rank roe.max_risk_class
    pub allowed : allows_capability roe spec.capability ≡ true
    pub in_scope_all : (t : Text) → In t spec.targets → check env.net roe.scope t ≡ in_scope
    pub known : (d : Text) → In d spec.depends_on → In d keys

  validate_task-IsValid :
      (spec : TaskSpec) (keys : List Text) (roe : RoeRecord) (commander : Text)
      → validate_task env spec keys roe commander ≡ ok tt
      → IsValid keys roe commander spec
  unfolding validate_task
  validate_task-IsValid spec keys roe commander h =
      let (_, h0) =
        reject_if-ok (is_empty spec.capability || risk_rank spec.risk_class == 0) missing _ h in
      let (ceiling, declared, h1) =
        bind-ok (ceiling_of (env.capability_exists spec.capability)) _ h0 in
      let (a, h2) =
        reject_if-ok (ltb (risk_rank ceiling) (risk_rank spec.risk_class)) above_ceiling _ h1 in
      let (b, h3) =
        reject_if-ok (ltb (commander_max_risk commander) (risk_rank spec.risk_class))
          above_commander _ h2 in
      let (c, h4) =
        reject_if-ok (ltb (risk_rank roe.max_risk_class) (risk_rank spec.risk_class)) above_roe _
          h3 in
      let (d, h5) = reject_if-ok (not (allows_capability roe spec.capability)) not_allowed _ h4 in
      let (e, h6) =
        reject_if-ok (is_error (check_all env.net roe.scope spec.targets)) out_of_scope _ h5 in
      record {
        ceiling = ceiling;
        declared = ceiling_of-ok (env.capability_exists spec.capability) ceiling declared;
        under_ceiling = under (risk_rank spec.risk_class) (risk_rank ceiling) a;
        under_commander = under (risk_rank spec.risk_class) (commander_max_risk commander) b;
        under_roe = under (risk_rank spec.risk_class) (risk_rank roe.max_risk_class) c;
        allowed = not-false (allows_capability roe spec.capability) d;
        in_scope_all =
            (check_all_iff env.net roe.scope spec.targets).0
              (let (u, f) = not_error (check_all env.net roe.scope spec.targets) e in f);
        known = λ t m.
            (member_iff t keys).0 (all-In (λ x. member x keys) spec.depends_on t (deps h6) m);
      }
    where
      under : (m n : ℕ) → ltb n m ≡ false → m ≤ n
      under m n f = ground (arith, f)

      not-false : (x : Bool) → not x ≡ false → x ≡ true
      not-false x f = ground (arith, f)

      deps :
          reject_if (not (all (λ d. member d keys) spec.depends_on)) unknown_dependency ≡ ok tt
          → all (λ d. member d keys) spec.depends_on ≡ true
      deps f = ground (arith, f)

  pub Matches-IsValid :
      (keys : List Text) (roe : RoeRecord) (commander : Text) (specs : List TaskSpec)
      (vs : List TaskVerdict)
      → Matches (λ s. validate_task env s keys roe commander ≡ ok tt) specs vs
      → Matches (IsValid keys roe commander) specs vs
  Matches-IsValid keys roe commander [] [] m = tt
  Matches-IsValid keys roe commander [] (v ∷ vs) m = m
  Matches-IsValid keys roe commander (s ∷ specs) [] m = m
  Matches-IsValid keys roe commander (s ∷ specs) (v ∷ vs) ((k, valid), rest) = (
    (k, λ n. validate_task-IsValid s keys roe commander (valid n)),
    Matches-IsValid keys roe commander specs vs rest,
  )
