-- ===== src/Gatekeeper/Policy/Sound.antt =====
-- policy.go: what each step has seen when it passes.
use aegisbastion.Common.{
  is_empty-true, is_empty-false, ◌≡◌, ◌≢◌, ◌⊎◌, inl, inr, true, false, List, [], none, some, Text,
  codes, text_eq, text_eq_iff, text_eq_sound, has_prefix, is_empty, In, any-false, any, arith,
  Option-cases, none≢some, sym, ◌∙◌, ||-false, either,
}
use mathlib.Core.Bool.{true≢false}
use aegisbastion.Gatekeeper.Revocation.{Row}
use aegisbastion.Gatekeeper.Scopecanon.{must_canon}
use aegisbastion.Gatekeeper.Types.{Principal, AuthorizationRequest}
use aegisbastion.Gatekeeper.Policy.{
  Services, Eval, names, binds_commander, step_auth, check_principal, check_role, step_revocation,
  check_revocations, target_revoked,
}
use aegisbastion.Gatekeeper.Policy.Loop.{Passes}

-- The caller has an identity of a known kind, is the commander that it plans for, and may request
-- work.
pub record IsCaller (svc : Services) (req : AuthorizationRequest) (p : Principal) : Type 0 where
  pub given : req.principal ≡ some p
  pub named : p.id ≢ []
  pub kind : (p.kind ≡ codes "service") ⊎ (p.kind ≡ codes "user")
  pub spiffe : (p.spiffe_id ≡ []) ⊎ (has_prefix p.spiffe_id (codes "spiffe://") ≡ true)
  pub commander : (req.task.commander ≡ []) ⊎ (binds_commander req.task.commander p ≡ true)
  pub role :
      (svc.has_permission [] p.id (codes "task:submit") ≡ some true)
      ⊎ (svc.has_permission [] p.id (codes "task:execute") ≡ some true)

check_role-pass :
    (svc : Services) (req : AuthorizationRequest) (p : Principal) (e : Eval)
    → Passes (check_role svc req p) e
    → (svc.has_permission [] p.id (codes "task:submit") ≡ some true)
      ⊎ (svc.has_permission [] p.id (codes "task:execute") ≡ some true)
unfolding check_role
check_role-pass svc req p e h = ground arith

-- The tests of `check_principal`, as they stand in the code.
check_principal-pass :
    (svc : Services) (req : AuthorizationRequest) (p : Principal) (e : Eval)
    → Passes (check_principal svc req p) e
    → (is_empty p.id ≡ false)
      × ((text_eq p.kind (codes "service") ≡ true) ⊎ (text_eq p.kind (codes "user") ≡ true))
      × ((is_empty p.spiffe_id ≡ true) ⊎ (has_prefix p.spiffe_id (codes "spiffe://") ≡ true))
      × ((is_empty req.task.commander ≡ true) ⊎ (binds_commander req.task.commander p ≡ true))
      × Passes (check_role svc req p) e
check_principal-pass svc req p e h = unfold check_principal in ground arith

pub step_auth-pass :
    (svc : Services) (req : AuthorizationRequest) (e : Eval)
    → Passes (step_auth svc req) e
    → (p : Principal) × IsCaller svc req p
unfolding step_auth
step_auth-pass svc req e h = elim (Option-cases req.principal) [
  | inl n ↦ absurd (none≢some (sym (rw (n, step_auth) at h).0))
  | inr (p, g) ↦ (p, caller p g (check_principal-pass svc req p e (rw (g, step_auth) at h)))
]
  where
    caller :
        (p : Principal)
        → req.principal ≡ some p
        → (is_empty p.id ≡ false)
          × ((text_eq p.kind (codes "service") ≡ true) ⊎ (text_eq p.kind (codes "user") ≡ true))
          × ((is_empty p.spiffe_id ≡ true) ⊎ (has_prefix p.spiffe_id (codes "spiffe://") ≡ true))
          × ((is_empty req.task.commander ≡ true) ⊎ (binds_commander req.task.commander p ≡ true))
          × Passes (check_role svc req p) e
        → IsCaller svc req p
    caller p g (named, kind, spiffe, commander, role) = record {
      given = g;
      named = is_empty-false p.id named;
      kind = either (text_eq_sound p.kind _) (text_eq_sound p.kind _) kind;
      spiffe = either (is_empty-true p.spiffe_id) (λ x. x) spiffe;
      commander = either (is_empty-true req.task.commander) (λ x. x) commander;
      role = check_role-pass svc req p e role;
    }

-- No revocation names everything, the RoE, a target or the capability.
abbrev pub IsUnrevoked : Services → AuthorizationRequest → List Row → Type 0
IsUnrevoked svc req rows =
    (r : Row)
    → In r rows
    → (r.scope ≢ codes "global")
      × ¬ ((r.scope ≡ codes "roe") × (r.scope_value ≡ req.roe_id))
      × ¬ ((r.scope ≡ codes "capability") × (r.scope_value ≡ req.capability))
      × ((t : Text)
          → In t req.targets
          → (r.scope ≡ codes "target")
          → (r.scope_value ≢ t) × (r.scope_value ≢ must_canon svc.net t))

check_revocations-none :
    (svc : Services) (req : AuthorizationRequest) (rows : List Row)
    → check_revocations svc req rows ≡ none
    → (any (λ r. text_eq r.scope (codes "global")) rows ≡ false)
      × (any (names svc req (codes "roe") req.roe_id) rows ≡ false)
      × (any (target_revoked svc req rows) req.targets ≡ false)
      × (any (names svc req (codes "capability") req.capability) rows ≡ false)
unfolding check_revocations
check_revocations-none svc req rows h = ground arith

-- A Boolean test that fails for equal texts.
text_ne : (s t : Text) → text_eq s t ≡ false → s ≢ t
text_ne s t h e = absurd (true≢false (sym ((text_eq_iff s t).1 e) ∙ h))

names_ne :
    (svc : Services) (req : AuthorizationRequest) (scope value : Text) (r : Row)
    → names svc req scope value r ≡ false
    → ¬ ((r.scope ≡ scope) × (r.scope_value ≡ value))
names_ne svc req scope value r h (s, v) = absurd (true≢false (sym (both) ∙ h))
  where
    both : names svc req scope value r ≡ true
    both = rw ((text_eq_iff r.scope scope).1 s, (text_eq_iff r.scope_value value).1 v)

target_revoked-false :
    (svc : Services) (req : AuthorizationRequest) (rows : List Row) (t : Text) (r : Row)
    → target_revoked svc req rows t ≡ false
    → In r rows
    → r.scope ≡ codes "target"
    → (r.scope_value ≢ t) × (r.scope_value ≢ must_canon svc.net t)
unfolding target_revoked
target_revoked-false svc req rows t r h m s =
    let (canonical, verbatim) =
      ||-false (any (names svc req (codes "target") (must_canon svc.net t)) rows)
        (any (names svc req (codes "target") t) rows) h in
    (
      λ v.
          names_ne svc req (codes "target") t r
            (any-false (names svc req (codes "target") t) rows r verbatim m) (s, v),
      λ v.
          names_ne svc req (codes "target") (must_canon svc.net t) r
            (any-false (names svc req (codes "target") (must_canon svc.net t)) rows r canonical m)
            (s, v),
    )

pub step_revocation-pass :
    (svc : Services) (req : AuthorizationRequest) (e : Eval)
    → Passes (step_revocation svc req) e
    → (rows : List Row) × (svc.revocations ≡ some rows) × IsUnrevoked svc req rows
unfolding step_revocation
step_revocation-pass svc req e h = elim (Option-cases svc.revocations) [
  | inl n ↦ absurd (none≢some (sym (rw (n, step_revocation) at h).1))
  | inr (rows, g) ↦
      (rows, g, clear rows (check_revocations-none svc req rows (rw (g, step_revocation) at h).0))
]
  where
    clear :
        (rows : List Row)
        → (any (λ r. text_eq r.scope (codes "global")) rows ≡ false)
          × (any (names svc req (codes "roe") req.roe_id) rows ≡ false)
          × (any (target_revoked svc req rows) req.targets ≡ false)
          × (any (names svc req (codes "capability") req.capability) rows ≡ false)
        → IsUnrevoked svc req rows
    clear rows (g, o, t, c) r m = (
      text_ne r.scope (codes "global")
          (any-false (λ r. text_eq r.scope (codes "global")) rows r g m),
      names_ne svc req (codes "roe") req.roe_id r
          (any-false (names svc req (codes "roe") req.roe_id) rows r o m),
      names_ne svc req (codes "capability") req.capability r
          (any-false (names svc req (codes "capability") req.capability) rows r c m),
      λ u n s.
          target_revoked-false svc req rows u r
            (any-false (target_revoked svc req rows) req.targets u t n) m s,
    )
