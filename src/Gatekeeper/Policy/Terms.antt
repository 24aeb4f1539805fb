-- ===== src/Gatekeeper/Policy/Terms.antt =====
-- policy.go, steps 5 to 10: what the RoE allows.
use Prim.Native.Nat.{◌^◌}
use aegisbastion.Common.{
  ℕ, ◌+◌, ◌/◌, ◌%◌, ◌&&◌, ◌||◌, Bool, true, false, not, List, [], ◌∷◌, ◌++◌, Option, none, some,
  Text, codes, text_eq, has_prefix, has_suffix, trim_suffix, member, is_empty, any, all, map, find,
  length, ltb, leb, ◌==◌, if◌then◌else◌,
}
use aegisbastion.Gatekeeper.Capreg.{RiskClass, r1, r2, r3}
use aegisbastion.Gatekeeper.Ratelimit.{Buckets, Verdict, allow}
use aegisbastion.Gatekeeper.Blackout.{Local}
use aegisbastion.Gatekeeper.Blackout
use aegisbastion.Gatekeeper.Types.{Roe, RateCap, LegalArtifact, DenyReason, AuthorizationRequest}
use aegisbastion.Gatekeeper.Policy.State.{
  Services, Clock, Eval, roe_of, dependency_fail, refuse, pass, refuse_if, risk_rank,
}

module _ (svc : Services) (clock : Clock) where
  -- Step 8, WINDOW.
  unfoldable pub step_window : Eval → Eval × Option DenyReason
  step_window e =
      let windows = (roe_of e).constraints.blackout_windows in
      refuse_if
        (not (is_empty windows)
          && Blackout.active svc.zone clock.window
              (map (λ w. record { rrule = w.rrule; tz = w.tz }) windows))
        DenyReason.blackout_window e

-- `strings.HasSuffix(a, ".*") && strings.HasPrefix(c, strings.TrimSuffix(a, "*"))`.
unfoldable pub covers_prefix : Text → Text → Bool
covers_prefix a capability =
    has_suffix a (codes ".*") && has_prefix capability (trim_suffix a (codes "*"))

-- `capabilityAllowed`.
unfoldable pub capability_allowed : List Text → Text → Bool
capability_allowed allowed capability =
    any (λ a. text_eq a capability || covers_prefix a capability) allowed

-- The loop of step 10 over the wildcards, with its `best` and `rps`.
unfoldable pub best_cap : Text → Text × ℕ → List (Text × RateCap) → Text × ℕ
best_cap capability best [] = best
best_cap capability (best, rps) ((pattern, cap) ∷ caps) =
    best_cap capability
      (if covers_prefix pattern capability && ltb (length best) (length pattern)
        then (pattern, cap.rps)
        else (best, rps))
      caps

-- The pattern that is matched, and its cap.
unfoldable pub matched_cap : List (Text × RateCap) → Text → Text × ℕ
matched_cap caps capability = elim (find capability caps) [
  | some cap ↦ (capability, cap.rps)
  | none ↦ best_cap capability ([], 0) caps
]

-- A present and verified legal artifact.
unfoldable pub is_verified : Option LegalArtifact → Bool
is_verified none = false
is_verified (some la) =
    not (is_empty la.document_sha256)
    && not (is_empty la.storage_uri)
    && not (is_empty la.verified_by)
    && (elim la.verified_at [ none ↦ false | some t ↦ true ])

-- Whether step 7 needs an approval.
unfoldable pub needs_approval : RiskClass → Text → Roe → Bool
needs_approval r3 capability roe = true
needs_approval r2 capability roe =
    has_prefix capability (codes "stress.")
    && member (codes "R2:stress.*:production") roe.constraints.requires_approval_for
needs_approval _ capability roe = false

module _ (req : AuthorizationRequest) where
  -- Step 5, CAPABILITY.
  unfoldable pub step_capability : RiskClass → Eval → Eval × Option DenyReason
  step_capability risk e =
      let c = (roe_of e).constraints in
      if not (capability_allowed c.allowed_capabilities req.capability)
      then refuse DenyReason.capability_not_allowed e
      else refuse_if (ltb (risk_rank c.max_risk_class) (risk_rank risk))
          DenyReason.risk_class_exceeded e

  -- Step 6, LEGAL.
  unfoldable pub step_legal : RiskClass → Eval → Eval × Option DenyReason
  step_legal risk e =
      let r = roe_of e in
      if leb (risk_rank r2) (risk_rank risk) && not (is_verified r.legal_artifact)
      then refuse DenyReason.legal_artifact_missing e
      else refuse_if
          (has_prefix req.capability (codes "stress.")
            && is_empty r.constraints.azure_pentest_notification_id)
          DenyReason.legal_artifact_missing e

  -- Step 9, JURISDICTION and data classes.
  unfoldable pub step_jurisdiction : Eval → Eval × Option DenyReason
  step_jurisdiction e =
      let c = (roe_of e).constraints in
      if not (is_empty req.source_region)
        && not (is_empty c.jurisdictions_allowed)
        && not (member req.source_region c.jurisdictions_allowed)
      then refuse DenyReason.jurisdiction_denied e
      else refuse_if (not (all (λ d. member d c.data_classes) req.data_classes_touched))
          DenyReason.data_class_denied e

  -- Step 7, APPROVAL.
  unfoldable pub step_approval : Services → RiskClass → Eval → Eval × Option DenyReason
  step_approval svc risk e =
      let r = roe_of e in
      if not (needs_approval risk req.capability r)
      then pass e
      else (elim (svc.find_valid_approval r.roe_id r.version req.capability req.targets) [
        | none ↦ dependency_fail DenyReason.approval_missing e
        | some none ↦ refuse DenyReason.approval_missing e
        | some (some id) ↦ pass (record e { approval_id = id })
      ])

abbrev pub default_r1_rps : ℕ
default_r1_rps = 100

-- The cap in force: R1 has a default; 0 is none.
unfoldable pub effective_rps : RiskClass → ℕ → ℕ
effective_rps r1 rps = if rps == 0 then default_r1_rps else rps
effective_rps _ rps = rps

-- `uint32(retry.Milliseconds()) + 1`.
abbrev pub retry_ms : ℕ → ℕ
retry_ms ns = (ns / 1000000 % 2 ^ 32 + 1) % 2 ^ 32

unfoldable pub take_rate : Buckets × Verdict → Eval → Eval × Option DenyReason
take_rate (m, v) e =
    if v.allowed
    then pass (record e { buckets = m })
    else refuse DenyReason.rate_limited
        (record e { buckets = m; retry_after_ms = retry_ms v.retry_after })

module _ (clock : Clock) (req : AuthorizationRequest) where
  -- Step 10, RATE.
  unfoldable pub step_rate : RiskClass → Eval → Eval × Option DenyReason
  step_rate risk e =
      let r = roe_of e in
      let (matched, declared) = matched_cap r.constraints.rate_caps req.capability in
      let rps = effective_rps risk declared in
      if rps == 0
      then pass e
      else take_rate (allow e.buckets (r.roe_id ++ codes ":" ++ matched) rps clock.rate) e
