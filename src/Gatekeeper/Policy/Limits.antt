-- ===== src/Gatekeeper/Policy/Limits.antt =====
-- policy.go, steps 5 to 10: what each has seen of the RoE when it passes. Each keeps the RoE that
-- step 3 has loaded.
use aegisbastion.Common.{
  is_empty_ne, ℕ, ◌≤◌, ◌≡◌, ◌≢◌, refl, ◌⊎◌, true, false, not, List, [], ◌∷◌, ◌++◌, some, Text,
  codes, text_eq, has_prefix, is_empty, In, any-In, all-In, all, member, member_iff, arith, map,
  any, ||-true, text_eq_sound, ◌&&◌, any-map-false, ◌||◌, either,
}
use aegisbastion.Gatekeeper.Capreg.{RiskClass}
use aegisbastion.Gatekeeper.Ratelimit.{allow}
use aegisbastion.Gatekeeper.Blackout
use aegisbastion.Gatekeeper.Types.{Roe, BlackoutWindow, AuthorizationRequest}
use aegisbastion.Gatekeeper.Policy.{
  Services, Clock, Eval, risk_rank, step_capability, capability_allowed, covers_prefix, step_legal,
  is_verified, step_approval, needs_approval, step_window, step_jurisdiction, step_rate, take_rate,
  effective_rps, matched_cap,
}
use aegisbastion.Gatekeeper.Policy.Loop.{Passes}

-- An allowed capability, of a risk that the RoE allows.
pub record IsCovered (req : AuthorizationRequest) (risk : RiskClass) (r : Roe) : Type 0 where
  pub pattern : Text
  pub listed : In pattern r.constraints.allowed_capabilities
  pub fits : (pattern ≡ req.capability) ⊎ (covers_prefix pattern req.capability ≡ true)
  pub within : risk_rank risk ≤ risk_rank r.constraints.max_risk_class

-- R2 and R3 have a verified legal artifact, and stress work the notification of Azure.
pub record IsLegal (req : AuthorizationRequest) (risk : RiskClass) (r : Roe) : Type 0 where
  pub artifact : 3 ≤ risk_rank risk → is_verified r.legal_artifact ≡ true
  pub notified :
      has_prefix req.capability (codes "stress.") ≡ true
      → is_empty r.constraints.azure_pentest_notification_id ≡ false

module _ (req : AuthorizationRequest) (risk : RiskClass) where
  -- What step 5 has seen, as it stands in the code.
  step_capability-cases :
      (e : Eval) (r : Roe)
      → e.roe ≡ some r
      → Passes (step_capability req risk) e
      → (any
            (λ a. text_eq a req.capability || covers_prefix a req.capability)
            r.constraints.allowed_capabilities
          ≡ true)
        × (risk_rank risk ≤ risk_rank r.constraints.max_risk_class)
        × ((step_capability req risk e).0.roe ≡ some r)
  step_capability-cases e r l h = unfold step_capability capability_allowed in ground arith

  pub step_capability-pass :
      (e : Eval) (r : Roe)
      → e.roe ≡ some r
      → Passes (step_capability req risk) e
      → IsCovered req risk r × ((step_capability req risk e).0.roe ≡ some r)
  step_capability-pass e r l h =
      let (allowed, within, kept) = step_capability-cases e r l h in
      let (p, m, y) =
        any-In (λ a. text_eq a req.capability || covers_prefix a req.capability)
          r.constraints.allowed_capabilities allowed in
      (
        record {
          pattern = p;
          listed = m;
          fits =
              either (text_eq_sound p req.capability) (λ c. c)
                (||-true (text_eq p req.capability) (covers_prefix p req.capability) y);
          within = within;
        },
        kept,
      )

  pub step_legal-pass :
      (e : Eval) (r : Roe)
      → e.roe ≡ some r
      → Passes (step_legal req risk) e
      → IsLegal req risk r × ((step_legal req risk e).0.roe ≡ some r)
  unfolding step_legal risk_rank
  step_legal-pass e r l h =
      (record { artifact = ground arith; notified = ground arith }, ground arith)

  -- What needs an approval has one for these targets.
  abbrev pub IsApproved : Services → Roe → Text → Type 0
  IsApproved svc r approval_id =
      needs_approval risk req.capability r ≡ true
      → svc.find_valid_approval r.roe_id r.version req.capability req.targets
        ≡ some (some approval_id)

  pub step_approval-pass :
      (svc : Services) (e : Eval) (r : Roe)
      → e.roe ≡ some r
      → Passes (step_approval req svc risk) e
      → IsApproved svc r (step_approval req svc risk e).0.approval_id
        × ((step_approval req svc risk e).0.roe ≡ some r)
  unfolding step_approval
  step_approval-pass svc e r l h = (λ n. ground arith, ground arith)

  -- Regions and data classes are among those that the RoE allows.
  pub record IsPermitted (r : Roe) : Type 0 where
    pub region :
        req.source_region ≢ []
        → r.constraints.jurisdictions_allowed ≢ []
        → In req.source_region r.constraints.jurisdictions_allowed
    pub classes : (d : Text) → In d req.data_classes_touched → In d r.constraints.data_classes

  -- What step 9 has seen, as it stands in the code.
  step_jurisdiction-cases :
      (e : Eval) (r : Roe)
      → e.roe ≡ some r
      → Passes (step_jurisdiction req) e
      → (is_empty req.source_region ≡ false
          → is_empty r.constraints.jurisdictions_allowed ≡ false
          → member req.source_region r.constraints.jurisdictions_allowed ≡ true)
        × (all (λ d. member d r.constraints.data_classes) req.data_classes_touched ≡ true)
        × ((step_jurisdiction req e).0.roe ≡ some r)
  step_jurisdiction-cases e r l h =
      unfold step_jurisdiction in (λ a b. ground arith, ground arith, ground arith)

  pub step_jurisdiction-pass :
      (e : Eval) (r : Roe)
      → e.roe ≡ some r
      → Passes (step_jurisdiction req) e
      → IsPermitted r × ((step_jurisdiction req e).0.roe ≡ some r)
  step_jurisdiction-pass e r l h =
      let (region, classes, kept) = step_jurisdiction-cases e r l h in
      (
        record {
          region = λ a b. (member_iff req.source_region r.constraints.jurisdictions_allowed).0 (
              region (is_empty_ne req.source_region a)
                (is_empty_ne r.constraints.jurisdictions_allowed b));
          classes = λ d m. (member_iff d r.constraints.data_classes).0 (
              all-In (λ c. member c r.constraints.data_classes) req.data_classes_touched d classes
                m);
        },
        kept,
      )

module _ (svc : Services) (clock : Clock) (req : AuthorizationRequest) (risk : RiskClass) where
  -- No blackout window is active.
  abbrev pub IsClear : Roe → Type 0
  IsClear r =
      (w : BlackoutWindow)
      → In w r.constraints.blackout_windows
      → Blackout.window_active svc.zone clock.window (record { rrule = w.rrule; tz = w.tz }) ≡ false

  windows : List BlackoutWindow → List Blackout.Window
  windows = map (λ w. record { rrule = w.rrule; tz = w.tz })

  step_window-cases :
      (e : Eval) (r : Roe)
      → e.roe ≡ some r
      → Passes (step_window svc clock) e
      → ((not (is_empty r.constraints.blackout_windows)
            && Blackout.active svc.zone clock.window (windows r.constraints.blackout_windows))
          ≡ false)
        × ((step_window svc clock e).0.roe ≡ some r)
  step_window-cases e r l h = unfold step_window windows in ground arith

  nothing_active :
      (ws : List BlackoutWindow)
      → (not (is_empty ws) && Blackout.active svc.zone clock.window (windows ws)) ≡ false
      → any (Blackout.window_active svc.zone clock.window) (windows ws) ≡ false
  nothing_active [] h = unfold any windows in refl
  nothing_active (w ∷ ws) h = unfold Blackout.active in h

  pub step_window-pass :
      (e : Eval) (r : Roe)
      → e.roe ≡ some r
      → Passes (step_window svc clock) e
      → IsClear r × ((step_window svc clock e).0.roe ≡ some r)
  unfolding windows
  step_window-pass e r l h =
      let (clear, kept) = step_window-cases e r l h in
      (
        λ w m.
            any-map-false (λ b. record { rrule = b.rrule; tz = b.tz })
              (Blackout.window_active svc.zone clock.window) r.constraints.blackout_windows w
              (nothing_active r.constraints.blackout_windows clear) m,
        kept,
      )

  -- The cap in force for the capability.
  abbrev pub cap_of : Roe → ℕ
  cap_of r = effective_rps risk (matched_cap r.constraints.rate_caps req.capability).1

  -- A capped capability has taken a token of its bucket.
  abbrev pub IsWithinRate : Roe → Eval → Type 0
  IsWithinRate r e =
      (cap_of r ≢ 0)
      → (allow e.buckets
          (r.roe_id ++ codes ":" ++ (matched_cap r.constraints.rate_caps req.capability).0)
          (cap_of r) clock.rate).1.allowed
        ≡ true

  pub step_rate-pass :
      (e : Eval) (r : Roe)
      → e.roe ≡ some r
      → Passes (step_rate clock req risk) e
      → IsWithinRate r e × ((step_rate clock req risk e).0.roe ≡ some r)
  unfolding step_rate take_rate
  step_rate-pass e r l h = ground arith
