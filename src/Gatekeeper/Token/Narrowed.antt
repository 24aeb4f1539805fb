-- ===== src/Gatekeeper/Token/Narrowed.antt =====
-- token/service.go, `ExchangeToken`: a worker's token has no more than its parent.
use aegisbastion.Common.{
  ℕ, ◌+◌, ◌≤◌, ◌<◌, ◌≡◌, refl, sym, ap, subst, false, not, ◌++◌, some, Text, is_empty, find, In,
  arith, ok, inl, inr, bind-ok, reject_if-ok, err≢ok, ok-inj, Result-cases, Bool-cases,
}
use aegisbastion.Gatekeeper.Capreg.{parse_risk_class}
use aegisbastion.Gatekeeper.Types.{RoeStatus, Roe}
use aegisbastion.Gatekeeper.Policy.{Services, found}
use aegisbastion.Gatekeeper.Token.Types.{
  Claims, MintSpec, Codec, Config, State, Draw, roe_not_active, no_risk_class,
}
use aegisbastion.Gatekeeper.Token.Manifest.{fetch_manifest, or_error}
use aegisbastion.Gatekeeper.Token.Terms.{loaded_roe, is_active, resolve_approval}
use aegisbastion.Gatekeeper.Token.Mint.{manifest_of, claims_for, expiry}
use aegisbastion.Gatekeeper.Token.Minted.{IsMinted, mint-IsMinted}
use aegisbastion.Gatekeeper.Token.Passed.{loaded_roe-ok, is_active-true}
use aegisbastion.Gatekeeper.Token.Exchange.{
  ExchangeRequest, first, verify_and_load, checked_parent, narrowed_spec, exchange_spec,
  exchange_token,
}
use aegisbastion.Gatekeeper.Token.Covered.{IsCovered, checked_parent-IsCovered}

module _ (svc : Services) (k : Codec) (cfg : Config) where
  exchange_token-steps :
      (d : Draw) (req : ExchangeRequest) (st st' : State) (raw : Text) (c : Claims)
      → exchange_token svc k cfg d req st ≡ (st', ok (raw, c))
      → (m : MintSpec) × (limit : ℕ) × (exchange_spec svc k cfg d req st ≡ ok (m, limit))
        × IsMinted k cfg d m limit st st' raw c
  unfolding exchange_token
  exchange_token-steps d req st st' raw c h =
      elim (Result-cases (exchange_spec svc k cfg d req st)) [
        | inl (e, n) ↦ absurd (err≢ok (ap (λ p. p.1) (rw n at h)))
        | inr ((m, limit), y) ↦
            (m, limit, y, mint-IsMinted k cfg d m limit st st' raw c (rw y at h))
      ]

  -- The expiry is cut to a limit that is not zero.
  expiry-limit : (now limit : ℕ) → 0 < limit → expiry cfg now limit ≤ limit
  expiry-limit now limit l = unfold expiry in ground arith

  exchange_spec-ok :
      (d : Draw) (req : ExchangeRequest) (st : State) (m : MintSpec) (limit : ℕ)
      → exchange_spec svc k cfg d req st ≡ ok (m, limit)
      → (parent : Claims) × (id : Text) × (roe : Roe) × (approval_id : Text) × (checked_parent svc k
            cfg d req st
          ≡ ok (parent, id))
        × (svc.load_roe parent.roe_id 0 ≡ found roe)
        × (roe.status ≡ RoeStatus.active)
        × (narrowed_spec svc k cfg req parent id roe approval_id ≡ m)
        × (parent.exp ≡ limit)
  unfolding exchange_spec
  exchange_spec-ok d req st m limit spec =
      let ((parent, id), checked, h0) = bind-ok (checked_parent svc k cfg d req st) _ spec in
      let (roe, loaded, h1) = bind-ok (loaded_roe (svc.load_roe parent.roe_id 0)) _ h0 in
      let (active, h2) = reject_if-ok (not (is_active roe.status)) roe_not_active _ h1 in
      let (risk, _, h3) =
        bind-ok (or_error no_risk_class (parse_risk_class parent.risk_class)) _ h2 in
      let (capability, _, h4) = bind-ok (or_error no_risk_class (first parent.capabilities)) _ h3 in
      let (approval_id, _, last) =
        bind-ok (resolve_approval svc roe risk capability req.narrowed_targets) _ h4 in
      (
        parent,
        id,
        roe,
        approval_id,
        checked,
        loaded_roe-ok (svc.load_roe parent.roe_id 0) roe loaded,
        is_active-true roe.status active,
        ap (λ p. p.0) (ok-inj refl last),
        ap (λ p. p.1) (ok-inj refl last),
      )

  -- A token that is minted on what a parent has.
  abbrev pub IsChild : ExchangeRequest → Draw → Claims → State → Claims → Type 0
  IsChild req d parent st' c =
      (c.capabilities ≡ parent.capabilities)
      × (c.risk_class ≡ parent.risk_class)
      × (c.rate_caps ≡ parent.rate_caps)
      × ((key : Text) × (canon : Text) × (find key st'.objects ≡ some canon)
          × (k.exact_json (record {
            jti = d.jti;
            task_id = req.worker_task_id;
            targets = req.narrowed_targets;
          })
              ≡ some canon)
          × (c.targets.manifest_uri ≡ cfg.uri_prefix ++ key)
          × (c.targets.manifest_sha256 ≡ k.digest canon))
      × (0 < parent.exp → c.exp ≤ parent.exp)
      × (c.exp ≤ c.iat + 900)

  minted-IsChild :
      (d : Draw) (req : ExchangeRequest) (st st' : State) (parent : Claims) (id : Text) (roe : Roe)
      (approval_id raw : Text) (c : Claims)
      → IsMinted k cfg d
          (narrowed_spec svc k cfg req parent id roe approval_id)
          parent.exp
          st
          st'
          raw
          c
      → IsChild req d parent st' c
  unfolding claims_for narrowed_spec manifest_of
  minted-IsChild d req st st' parent id roe approval_id raw c minted =
      let is = minted.claims_are in
      (
        ap (λ x. x.capabilities) is,
        ap (λ x. x.risk_class) is,
        ap (λ x. x.rate_caps) is,
        (
          minted.key,
          minted.canon,
          minted.stored,
          made,
          ap (λ x. x.targets.manifest_uri) is,
          ap (λ x. x.targets.manifest_sha256) is,
        ),
        (λ l.
            subst (λ e. e ≤ parent.exp) (sym (ap (λ x. x.exp) is))
              (expiry-limit d.now parent.exp l)),
        minted.lives,
      )
    where
      made :
          k.exact_json
            (record { jti = d.jti; task_id = req.worker_task_id; targets = req.narrowed_targets })
          ≡ some minted.canon
      made = elim (Bool-cases (is_empty req.narrowed_targets)) [
        | inl y ↦ absurd (err≢ok (rw (y, manifest_of) at minted.manifest))
        | inr n ↦ ap (λ p. p.1) (ok-inj refl (rw (n, manifest_of) at minted.manifest))
      ]

  -- A narrowed token is exchanged only for a parent that verifies and is neither unregistered nor
  -- revoked, whose manifest is the one that it names, and which covers each target that is asked for;
  -- and under an RoE that is now active. It has the parent's capabilities, risk class and rate caps,
  -- the manifest that is stored for it lists the targets that were asked for, and it ends no later
  -- than a parent with an end, and after 900 seconds at most.
  pub exchange_token-narrows :
      (d : Draw) (req : ExchangeRequest) (st st' : State) (raw : Text) (c : Claims)
      → exchange_token svc k cfg d req st ≡ (st', ok (raw, c))
      → (parent : Claims) × (id : Text) × (manifest : Text) × (roe : Roe) × (verify_and_load k cfg d
            req.parent_token false st.issued
          ≡ ok (parent, id))
        × (fetch_manifest k st.objects parent.targets.manifest_uri parent.targets.manifest_sha256
            ≡ ok manifest)
        × ((t : Text) → In t req.narrowed_targets → IsCovered svc k parent manifest t)
        × (svc.load_roe parent.roe_id 0 ≡ found roe)
        × (roe.status ≡ RoeStatus.active)
        × IsChild req d parent st' c
  exchange_token-narrows d req st st' raw c h =
      let (m, limit, spec, minted) = exchange_token-steps d req st st' raw c h in
      let (parent, id, roe, approval_id, checked, loaded, active, is, ends) =
        exchange_spec-ok d req st m limit spec in
      let (verified, manifest, fetched, covered) =
        checked_parent-IsCovered svc k cfg d req st parent id checked in
      (
        parent,
        id,
        manifest,
        roe,
        verified,
        fetched,
        covered,
        loaded,
        active,
        minted-IsChild d req st st' parent id roe approval_id raw c (
            subst (λ x. IsMinted k cfg d x parent.exp st st' raw c) (sym is)
              (subst (λ x. IsMinted k cfg d m x st st' raw c) (sym ends) minted)),
      )
