-- ===== src/Gatekeeper/Token/Passed.antt =====
-- token/service.go, `MintToken`: what it has seen when it comes to the minting.
use aegisbastion.Common.{
  ℕ, ◌<◌, ◌≡◌, ◌≢◌, refl, ap, subst, ◌∙◌, ◌&&◌, ◌||◌, inl, inr, Bool, true, false, not, List, [],
  ◌∷◌, Option, none, some, none≢some, Text, codes, text_eq, text_eq_sound, is_empty, if◌then◌else◌,
  ltb, arith, In, Bool-cases, ok, err, bind-ok, reject_if-ok, err≢ok, ok-inj,
}
use aegisbastion.Gatekeeper.Capreg.{RiskClass, r0, r1, r2, r3, parse_risk_class, risk_class_string}
use aegisbastion.Gatekeeper.Types.{Roe, RoeStatus, Decision}
use aegisbastion.Gatekeeper.Policy.{Services, DecisionRow, Loaded, found, no_rows, unavailable}
use aegisbastion.Gatekeeper.Token.Types.{
  Codec, Config, missing_field, no_decision, not_allowed, wrong_task, not_a_watch, wrong_targets,
  roe_not_active, window_closed, approval_unavailable, approval_missing,
}
use aegisbastion.Gatekeeper.Token.Manifest.{same_target_set, or_error}
use aegisbastion.Gatekeeper.Token.Terms.{
  load_decision, is_deny, loaded_roe, is_active, is_required, resolve_approval, usable, is_r1,
}
use aegisbastion.Gatekeeper.Token.Mint.{MintRequest, checked_grant, checked_roe}
use aegisbastion.Gatekeeper.Token.Minted.{or_error-ok}

pub load_decision-In :
    (id : Text) (ds : List DecisionRow) (d : DecisionRow)
    → load_decision id ds ≡ some d
    → In d ds × (d.decision_id ≡ id)
unfolding load_decision
load_decision-In id [] d h = absurd (none≢some h)
load_decision-In id (x ∷ ds) d h = elim (Bool-cases (text_eq x.decision_id id)) [
  | inl y ↦
      let e = some_same (rw y at h) in
      (inl e, subst (λ z. z.decision_id ≡ id) e (text_eq_sound x.decision_id id y))
  | inr n ↦ let (m, is) = load_decision-In id ds d (rw n at h) in (inr m, is)
]
  where
    some_same : some x ≡ some d → x ≡ d
    some_same k = cc

pub loaded_roe-ok : (l : Loaded) (roe : Roe) → loaded_roe l ≡ ok roe → l ≡ found roe
loaded_roe-ok (found r) roe h = ap found (ok-inj refl h)
loaded_roe-ok no_rows roe h = absurd (err≢ok h)
loaded_roe-ok unavailable roe h = absurd (err≢ok h)

pub is_active-true : (s : RoeStatus) → not (is_active s) ≡ false → s ≡ RoeStatus.active
is_active-true RoeStatus.active h = refl
is_active-true RoeStatus.unspecified h = cc
is_active-true RoeStatus.draft h = cc
is_active-true RoeStatus.pending_approval h = cc
is_active-true RoeStatus.suspended h = cc
is_active-true RoeStatus.expired h = cc
is_active-true RoeStatus.revoked h = cc

pub not-false : (b : Bool) → not b ≡ false → b ≡ true
not-false b h = ground arith

is_allow : (d : Decision) → is_deny d ≡ false → d ≡ Decision.allow
is_allow Decision.allow h = refl
is_allow Decision.deny h = cc

pub usable-risk :
    (o : Option RiskClass) (risk : RiskClass) → usable o ≡ ok risk → (o ≡ some risk) × (risk ≢ r0)
usable-risk none risk h = absurd (err≢ok h)
usable-risk (some r0) risk h = absurd (err≢ok h)
usable-risk (some r1) risk h = let e = ok-inj refl h in (ap some e, λ z. cc)
usable-risk (some r2) risk h = let e = ok-inj refl h in (ap some e, λ z. cc)
usable-risk (some r3) risk h = let e = ok-inj refl h in (ap some e, λ z. cc)
usable-risk (some RiskClass.unspecified) risk h = let e = ok-inj refl h in (ap some e, λ z. cc)

module _ (svc : Services) where
  -- Where an approval is needed, the one that is found is the one that is bound.
  pub resolve_approval-required :
      (roe : Roe) (risk : RiskClass) (capability : Text) (targets : List Text) (id : Text)
      → resolve_approval svc roe risk capability targets ≡ ok id
      → is_required risk capability roe ≡ true
      → svc.find_valid_approval roe.roe_id roe.version capability targets ≡ some (some id)
  unfolding resolve_approval
  resolve_approval-required roe risk capability targets id h y =
      let (a, is, rest) =
        bind-ok
          (or_error approval_unavailable
            (svc.find_valid_approval roe.roe_id roe.version capability targets))
          _ h in
      or_error-ok approval_unavailable
        (svc.find_valid_approval roe.roe_id roe.version capability targets) is
      ∙ ap some (of a rest)
    where
      of :
          (a : Option Text)
          → (elim a [
            | none ↦ (if is_required risk capability roe then err approval_missing else ok [])
            | some i ↦ ok i
          ])
            ≡ ok id
          → a ≡ some id
      of none r = absurd (err≢ok (rw y at r))
      of (some i) r = ap some (ok-inj refl r)

module _ (svc : Services) (k : Codec) (cfg : Config) where
  pub record IsChecked (decisions : List DecisionRow) (req : MintRequest) (d : DecisionRow)
      (risk : RiskClass) : Type 0 where
    pub on_record : In d decisions × (d.decision_id ≡ req.decision_id)
    pub allowed : d.decision ≡ Decision.allow
    pub same_task : d.task_id ≡ req.task_id
    pub known : (parse_risk_class (risk_class_string d.risk_class) ≡ some risk) × (risk ≢ r0)
    pub watches :
        (req.scope_bound
          && not (
              is_r1 risk
              && (text_eq d.capability (codes "monitor.watch")
                  || text_eq d.capability (codes "monitor.rescan"))))
        ≡ false
    pub same_targets :
        (not req.scope_bound && not (same_target_set svc.net d.targets req.targets)) ≡ false

  pub checked_grant-IsChecked :
      (decisions : List DecisionRow) (req : MintRequest) (d' : DecisionRow) (risk' : RiskClass)
      → checked_grant svc k cfg decisions req ≡ ok (d', risk')
      → IsChecked decisions req d' risk'
  unfolding checked_grant
  checked_grant-IsChecked decisions req d' risk' h =
      let (_, h0) =
        reject_if-ok (is_empty req.decision_id || is_empty req.task_id || is_empty req.subject)
          missing_field _ h in
      let (d, found_is, h1) =
        bind-ok (or_error no_decision (load_decision req.decision_id decisions)) _ h0 in
      let (allowed, h2) = reject_if-ok (is_deny d.decision) not_allowed _ h1 in
      let (task, h3) = reject_if-ok (not (text_eq d.task_id req.task_id)) wrong_task _ h2 in
      let (risk, known, h4) =
        bind-ok (usable (parse_risk_class (risk_class_string d.risk_class))) _ h3 in
      let (watches, h5) =
        reject_if-ok
          (req.scope_bound
            && not (
                is_r1 risk
                && (text_eq d.capability (codes "monitor.watch")
                    || text_eq d.capability (codes "monitor.rescan"))))
          not_a_watch _ h4 in
      let (same_targets, last) =
        reject_if-ok (not req.scope_bound && not (same_target_set svc.net d.targets req.targets))
          wrong_targets _ h5 in
      subst (λ p. IsChecked decisions req p.0 p.1) (ok-inj refl last)
        (record {
          on_record =
              load_decision-In req.decision_id decisions d
                (or_error-ok no_decision (load_decision req.decision_id decisions) found_is);
          allowed = is_allow d.decision allowed;
          same_task =
              text_eq_sound d.task_id req.task_id (not-false (text_eq d.task_id req.task_id) task);
          known = usable-risk (parse_risk_class (risk_class_string d.risk_class)) risk known;
          watches = watches;
          same_targets = same_targets;
        })

  pub checked_roe-ok :
      (now : ℕ) (roe_id : Text) (roe' : Roe)
      → checked_roe svc k cfg now roe_id ≡ ok roe'
      → (svc.load_roe roe_id 0 ≡ found roe')
        × (roe'.status ≡ RoeStatus.active)
        × (now < roe'.valid_until)
  unfolding checked_roe
  checked_roe-ok now roe_id roe' h =
      let (roe, loaded, h0) = bind-ok (loaded_roe (svc.load_roe roe_id 0)) _ h in
      let (active, h1) = reject_if-ok (not (is_active roe.status)) roe_not_active _ h0 in
      let (before, last) = reject_if-ok (not (ltb now roe.valid_until)) window_closed _ h1 in
      subst
        (λ r.
          (svc.load_roe roe_id 0 ≡ found r) × (r.status ≡ RoeStatus.active) × (now < r.valid_until))
        (ok-inj refl last)
        (
          loaded_roe-ok (svc.load_roe roe_id 0) roe loaded,
          is_active-true roe.status active,
          ground (arith, before),
        )
