-- ===== src/Gatekeeper/Token/Granted.antt =====
-- token/service.go, `MintToken`: a token rests on a recorded decision and on the RoE as it is.
use aegisbastion.Common.{
  ℕ, ◌+◌, ◌≤◌, ◌<◌, ◌≡◌, ◌≢◌, refl, sym, ap, ◌∙◌, ◌&&◌, ◌||◌, true, false, not, List, [], ◌∷◌, some,
  Text, codes, text_eq, arith, In, ok, err≢ok, ok-inj, bind-ok, Result-cases, inl, inr,
}
use aegisbastion.Gatekeeper.Capreg.{RiskClass, r0, parse_risk_class, risk_class_string}
use aegisbastion.Gatekeeper.Types.{Roe, RoeStatus, Decision}
use aegisbastion.Gatekeeper.Policy.{Services, DecisionRow, found}
use aegisbastion.Gatekeeper.Token.Types.{Claims, MintSpec, Codec, Config, State, Draw}
use aegisbastion.Gatekeeper.Token.Manifest.{same_target_set}
use aegisbastion.Gatekeeper.Token.Terms.{is_required, is_r1, resolve_approval}
use aegisbastion.Gatekeeper.Token.Mint.{
  MintRequest, checked_grant, checked_roe, spec_of, mint_spec, mint_token, claims_for,
}
use aegisbastion.Gatekeeper.Token.Minted.{IsMinted, mint-IsMinted}
use aegisbastion.Gatekeeper.Token.Passed.{
  checked_grant-IsChecked, checked_roe-ok, resolve_approval-required,
}

-- An allow of the request's task, that is on record.
abbrev pub IsGrant : List DecisionRow → MintRequest → DecisionRow → Type 0
IsGrant decisions req d =
    In d decisions
    × (d.decision_id ≡ req.decision_id)
    × (d.decision ≡ Decision.allow)
    × (d.task_id ≡ req.task_id)

-- The RoE as it is now: active, and before its end.
abbrev pub IsOpen : Services → ℕ → Text → Roe → Type 0
IsOpen svc now roe_id roe =
    (svc.load_roe roe_id 0 ≡ found roe) × (roe.status ≡ RoeStatus.active) × (now < roe.valid_until)

-- The targets that are asked for are the decision's, or a watch of R1 has the whole scope.
abbrev pub IsAimed : Services → MintRequest → DecisionRow → RiskClass → Type 0
IsAimed svc req d risk =
    (req.scope_bound ≡ false → same_target_set svc.net d.targets req.targets ≡ true)
    × (req.scope_bound ≡ true
        → (is_r1 risk ≡ true)
          × ((text_eq d.capability (codes "monitor.watch")
                || text_eq d.capability (codes "monitor.rescan"))
              ≡ true))

module _ (svc : Services) (k : Codec) (cfg : Config) where
  mint_token-steps :
      (w : Draw) (decisions : List DecisionRow) (req : MintRequest) (st st' : State) (raw : Text)
      (c : Claims)
      → mint_token svc k cfg w decisions req st ≡ (st', ok (raw, c))
      → (m : MintSpec) × (mint_spec svc k cfg w.now decisions req ≡ ok m)
        × IsMinted k cfg w m 0 st st' raw c
  unfolding mint_token
  mint_token-steps w decisions req st st' raw c h =
      elim (Result-cases (mint_spec svc k cfg w.now decisions req)) [
        | inl (e, n) ↦ absurd (err≢ok (ap (λ p. p.1) (rw n at h)))
        | inr (m, y) ↦ (m, y, mint-IsMinted k cfg w m 0 st st' raw c (rw y at h))
      ]

  aimed :
      (req : MintRequest) (d : DecisionRow) (risk : RiskClass)
      → (req.scope_bound
          && not (
              is_r1 risk
              && (text_eq d.capability (codes "monitor.watch")
                  || text_eq d.capability (codes "monitor.rescan"))))
        ≡ false
      → (not req.scope_bound && not (same_target_set svc.net d.targets req.targets)) ≡ false
      → IsAimed svc req d risk
  aimed req d risk a b = (λ n. ground arith, λ y. (ground arith, ground arith))

  -- A token is minted only for an allow that is on record for the same task, of a risk class with
  -- tokens, under an RoE that is now active and not past its end; for exactly the targets of the
  -- decision, or as a watch of risk R1. Where an approval is needed, the token names the one that
  -- covers it. It carries the decision's one capability and the stored risk class, names that RoE in
  -- its version now, and lives at most 900 seconds.
  pub mint_token-granted :
      (w : Draw) (decisions : List DecisionRow) (req : MintRequest) (st st' : State) (raw : Text)
      (c : Claims)
      → mint_token svc k cfg w decisions req st ≡ (st', ok (raw, c))
      → (d : DecisionRow) × (roe : Roe) × (risk : RiskClass) × IsGrant decisions req d
        × (parse_risk_class (risk_class_string d.risk_class) ≡ some risk)
        × (risk ≢ r0)
        × IsOpen svc w.now d.roe_id roe
        × IsAimed svc req d risk
        × (is_required risk d.capability roe ≡ true
            → svc.find_valid_approval roe.roe_id roe.version d.capability d.targets
              ≡ some (some c.approval_id))
        × (c.task_id ≡ req.task_id)
        × (c.capabilities ≡ d.capability ∷ [])
        × (c.risk_class ≡ risk_class_string d.risk_class)
        × (c.roe_id ≡ roe.roe_id)
        × (c.roe_version ≡ roe.version)
        × (c.exp ≤ c.iat + 900)
  unfolding claims_for mint_spec spec_of
  mint_token-granted w decisions req st st' raw c h =
      let (m, spec, minted) = mint_token-steps w decisions req st st' raw c h in
      let ((d, risk), grant, h0) = bind-ok (checked_grant svc k cfg decisions req) _ spec in
      let (roe, under, h1) = bind-ok (checked_roe svc k cfg w.now d.roe_id) _ h0 in
      let (id, approved, last) =
        bind-ok (resolve_approval svc roe risk d.capability d.targets) _ h1 in
      let is : c
          ≡ claims_for k cfg w.now w.jti (spec_of svc k cfg req d risk roe id) 0 minted.key
              (k.digest minted.canon) =
        minted.claims_are
        ∙ ap (λ x. claims_for k cfg w.now w.jti x 0 minted.key (k.digest minted.canon))
            (sym (ok-inj refl last)) in
      let t = checked_grant-IsChecked svc k cfg decisions req d risk grant in
      (
        d,
        roe,
        risk,
        (t.on_record.0, t.on_record.1, t.allowed, t.same_task),
        t.known.0,
        t.known.1,
        checked_roe-ok svc k cfg w.now d.roe_id roe under,
        aimed req d risk t.watches t.same_targets,
        (λ y.
            resolve_approval-required svc roe risk d.capability d.targets id approved y
            ∙ ap (λ x. some (some x.approval_id)) (sym is)),
        ap (λ x. x.task_id) is,
        ap (λ x. x.capabilities) is,
        ap (λ x. x.risk_class) is,
        ap (λ x. x.roe_id) is,
        ap (λ x. x.roe_version) is,
        minted.lives,
      )
