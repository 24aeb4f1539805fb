-- ===== src/Gatekeeper/Policy/Targets.antt =====
-- policy.go, steps 3 and 4: what each has seen of the RoE and of the targets when it passes.
use aegisbastion.Common.{
  is_empty-false, ◌≤◌, ◌<◌, ◌≡◌, ◌≢◌, refl, ◌⊎◌, inl, inr, Bool, true, false, List, [], ◌∷◌, Option,
  none, some, Text, is_empty, In, all-In, arith, Bool-cases, Option-cases, sym, ◌∙◌, none≢some,
  subst,
}
use aegisbastion.Gatekeeper.Capreg.{RiskClass}
use aegisbastion.Gatekeeper.Scopecanon.{canonical}
use aegisbastion.Gatekeeper.Scopecanon.Exclusions.{Matches, evaluate-in_scope}
use aegisbastion.Gatekeeper.Types.{DenyReason, Roe, RoeStatus, AuthorizationRequest}
use aegisbastion.Gatekeeper.Policy.{
  Services, Clock, Eval, Loaded, found, no_rows, unavailable, roe_of, step_roe_active, check_roe,
  step_target_scope, check_targets, check_inventory, intrusive,
}
use aegisbastion.Gatekeeper.Policy.Loop.{Passes}

-- The RoE is active, inside its window, and of the version that the request pins.
pub record IsInForce (clock : Clock) (req : AuthorizationRequest) (r : Roe) : Type 0 where
  pub active : r.status ≡ RoeStatus.active
  pub opened : r.valid_from ≤ clock.roe
  pub open_still : clock.roe < r.valid_until
  pub pinned : (req.roe_version ≡ 0) ⊎ (req.roe_version ≡ r.version)

Loaded-cases : (l : Loaded) → ((r : Roe) × (l ≡ found r)) ⊎ ((l ≡ no_rows) ⊎ (l ≡ unavailable))
Loaded-cases (found r) = inl (r, refl)
Loaded-cases no_rows = inr (inl refl)
Loaded-cases unavailable = inr (inr refl)

module _ (svc : Services) (clock : Clock) (req : AuthorizationRequest) where
  check_roe-none : (r : Roe) → check_roe svc clock req r ≡ none → IsInForce clock req r
  unfolding check_roe
  check_roe-none r h = ground arith

  pub step_roe_active-pass :
      (e : Eval)
      → Passes (step_roe_active svc clock req) e
      → (r : Roe) × (svc.load_roe req.roe_id 0 ≡ found r)
        × IsInForce clock req r
        × ((step_roe_active svc clock req e).0.roe ≡ some r)
  unfolding step_roe_active
  step_roe_active-pass e h = elim (Loaded-cases (svc.load_roe req.roe_id 0)) [
    | inl (r, g) ↦
        (r, g, check_roe-none r (rw (g, step_roe_active) at h).0, rw (g, step_roe_active))
    | inr (inl g) ↦ absurd (none≢some (sym (rw (g, step_roe_active) at h).0))
    | inr (inr g) ↦ absurd (none≢some (sym (rw (g, step_roe_active) at h).1))
  ]

roe_of-some : (e : Eval) (r : Roe) → e.roe ≡ some r → roe_of e ≡ r
roe_of-some e r l = ground arith

-- The target has a canonical form that an entry of the resolved list matches and no exclusion does.
abbrev pub InScope : Services → List Text → List Text → Text → Type 0
InScope svc includes excludes target =
    (t : Text) × (canonical svc.net target ≡ some t)
    × Matches svc.net includes t
    × ¬ Matches svc.net excludes t

module _ (svc : Services) (req : AuthorizationRequest) where
  check_targets-none :
      (includes excludes ts : List Text)
      → check_targets svc req includes excludes ts ≡ none
      → (t : Text) → In t ts
      → InScope svc includes excludes t
  unfolding check_targets
  check_targets-none includes excludes [] h t m = absurd m
  check_targets-none includes excludes (x ∷ ts) h t (inl e) =
      subst (InScope svc includes excludes) e
        ((evaluate-in_scope svc.net includes excludes x).0 (ground arith))
  check_targets-none includes excludes (x ∷ ts) h t (inr m) =
      check_targets-none includes excludes ts (ground arith) t m

module _ (svc : Services) (req : AuthorizationRequest) (risk : RiskClass) where
  -- The inventory, where it is wired, has verified the targets of intrusive work.
  abbrev pub IsVerified : Type 0
  IsVerified =
      (verify : List Text → Option (Text → Bool))
      → svc.inventory ≡ some verify
      → intrusive risk ≡ true
      → (verified : Text → Bool) × (verify req.targets ≡ some verified)
        × ((t : Text) → In t req.targets → verified t ≡ true)

  check_inventory-pass :
      (e : Eval)
      → Passes (check_inventory svc req risk) e
      → IsVerified × ((check_inventory svc req risk e).0.roe ≡ e.roe)
  unfolding check_inventory
  check_inventory-pass e h = (verified, ground arith)
    where
      verified : IsVerified
      verified verify g i = elim (Option-cases (verify req.targets)) [
        | inl n ↦ absurd (none≢some (sym (rw (g, i, n, check_inventory) at h).1))
        | inr (v, k) ↦ (
          v,
          k,
          λ t m. all-In v req.targets t (ground (arith, (rw (g, i, k, check_inventory) at h).0)) m,
        )
      ]

  -- What step 4 has seen, as it stands in the code.
  step_target_scope-cases :
      (e : Eval)
      → Passes (step_target_scope svc req risk) e
      → (is_empty req.targets ≡ false)
        × ((includes : List Text) × (excludes : List Text) × (svc.effective_targets
                (roe_of e).roe_id
                (roe_of e).version
              ≡ some (includes, excludes))
            × (check_targets svc req includes excludes req.targets ≡ none)
            × (step_target_scope svc req risk e ≡ check_inventory svc req risk e))
  unfolding step_target_scope
  step_target_scope-cases e h = elim (Bool-cases (is_empty req.targets)) [
    | inl y ↦ absurd (none≢some (sym (rw (y, step_target_scope) at h).0))
    | inr n ↦ (elim (Option-cases (svc.effective_targets (roe_of e).roe_id (roe_of e).version)) [
      | inl u ↦ absurd (none≢some (sym (rw (n, u, step_target_scope) at h).1))
      | inr ((i, x), g) ↦ (elim (Option-cases (check_targets svc req i x req.targets)) [
        | inl k ↦ (n, (i, x, g, k, rw (n, g, k, step_target_scope)))
        | inr (c, k) ↦ absurd (none≢some (sym (rw (n, g, k, step_target_scope) at h).0))
      ])
    ])
  ]

  pub step_target_scope-pass :
      (e : Eval) (r : Roe)
      → e.roe ≡ some r
      → Passes (step_target_scope svc req risk) e
      → ((includes : List Text) × (excludes : List Text) × (svc.effective_targets r.roe_id r.version
            ≡ some (includes, excludes))
          × ((t : Text) → In t req.targets → InScope svc includes excludes t))
        × (req.targets ≢ [])
        × IsVerified
        × ((step_target_scope svc req risk e).0.roe ≡ some r)
  step_target_scope-pass e r l h =
      let (n, (i, x, g, k, same)) = step_target_scope-cases e h in
      let (verified, kept) = check_inventory-pass e (subst passed same h) in
      (
        (
          i,
          x,
          subst (resolved i x) (roe_of-some e r l) g,
          check_targets-none svc req i x req.targets k,
        ),
        is_empty-false req.targets n,
        verified,
        subst (λ s. s.0.roe ≡ some r) (sym same) (kept ∙ l),
      )
    where
      passed : Eval × Option DenyReason → Type 0
      passed s = (s.1 ≡ none) × (s.0.failed ≡ none)

      resolved : List Text → List Text → Roe → Type 0
      resolved i x q = svc.effective_targets q.roe_id q.version ≡ some (i, x)
