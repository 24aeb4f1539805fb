-- ===== src/Gatekeeper/Token/Refreshed.antt =====
-- token/service.go, `RefreshToken`: a refresh rests on a new decision of the policy pipeline.
use aegisbastion.Common.{
  ℕ, subst, some, ltb, true, is_empty, false, ok-inj, bind-ok, reject_if-ok, arith, ◌+◌, ◌≤◌, ◌≡◌,
  refl, sym, ap, List, Text, inl, inr, Result, ok, err, err≢ok, Result-cases,
}
use aegisbastion.Gatekeeper.Types.{Decision, Roe}
use aegisbastion.Gatekeeper.Policy.{Services, Clock, World, authorize}
use aegisbastion.Gatekeeper.Token.Types.{
  Claims, Codec, Config, State, Draw, Error, Issued, missing_field, beyond_grace, no_risk_class,
}
use aegisbastion.Gatekeeper.Token.Terms.{loaded_roe}
use aegisbastion.Gatekeeper.Token.Mint.{claims_for}
use aegisbastion.Gatekeeper.Token.Minted.{mint-IsMinted}
use aegisbastion.Gatekeeper.Token.Renewal.{
  manifest_targets, refreshable, authz_request, successor, reauthorized, refresh_token,
  unless_denied, successor_spec,
}
use aegisbastion.Gatekeeper.Token.Jwt.{verify, seconds}
use aegisbastion.Gatekeeper.Token.Manifest.{or_error}
use aegisbastion.Gatekeeper.Token.Minted.{or_error-ok}
use aegisbastion.Gatekeeper.Token.Exchange.{find_issued, verify_and_load, first, is_set}
use aegisbastion.Gatekeeper.Token.Loaded.{verify_and_load-row}

module _ (svc : Services) (k : Codec) (cfg : Config) where
  successor-IsMinted :
      (d : Draw) (c : Claims) (targets : List Text) (id : Text) (roe : Result Error Roe)
      (st st' : State) (raw : Text) (c' : Claims)
      → successor svc k cfg d c targets id roe st ≡ (st', ok (raw, c'))
      → (c'.task_id ≡ c.task_id)
        × (c'.sub ≡ c.sub)
        × (c'.capabilities ≡ c.capabilities)
        × (c'.risk_class ≡ c.risk_class)
        × (c'.exp ≤ c'.iat + 900)
  unfolding successor successor_spec claims_for
  successor-IsMinted d c targets id (err e) st st' raw c' h = absurd (err≢ok (ap (λ p. p.1) h))
  successor-IsMinted d c targets id (ok roe) st st' raw c' h =
      let minted = mint-IsMinted k cfg d (successor_spec c targets id roe) 0 st st' raw c' h in
      let is = minted.claims_are in
      (
        ap (λ x. x.task_id) is,
        ap (λ x. x.sub) is,
        ap (λ x. x.capabilities) is,
        ap (λ x. x.risk_class) is,
        minted.lives,
      )

  -- The token verifies but for its end, which is 900 seconds ago at most, and its row in the registry
  -- is not revoked; its targets are read from its manifest, and its first capability is asked for.
  abbrev pub IsFit : Draw → Text → State → Claims → Text → List Text → Issued → Type 0
  IsFit d raw st c capability targets i =
      (verify k cfg d.now raw true ≡ ok c)
      × (find_issued c.jti st.issued ≡ some i)
      × (is_set i.revoked_at ≡ false)
      × (d.now ≤ seconds c.exp + seconds 900)
      × (manifest_targets k cfg c st.objects ≡ ok targets)
      × (first c.capabilities ≡ some capability)

  refreshable-IsFit :
      (d : Draw) (raw : Text) (st : State) (c : Claims) (capability : Text) (targets : List Text)
      → refreshable k cfg d raw st ≡ ok (c, capability, targets)
      → (i : Issued) × IsFit d raw st c capability targets i
  unfolding refreshable
  refreshable-IsFit d raw st c' capability' targets' h =
      let (_, h0) = reject_if-ok (is_empty raw) missing_field _ h in
      let ((c, id), loaded, h1) = bind-ok (verify_and_load k cfg d raw true st.issued) _ h0 in
      let (late, h2) = reject_if-ok (ltb (seconds c.exp + seconds 900) d.now) beyond_grace _ h1 in
      let (targets, read, h3) = bind-ok (manifest_targets k cfg c st.objects) _ h2 in
      let (capability, one, last) = bind-ok (or_error no_risk_class (first c.capabilities)) _ h3 in
      let (i, found_is, unset, verified) =
        verify_and_load-row k cfg d raw true st.issued c id loaded in
      (
        i,
        subst (λ p. IsFit d raw st p.0 p.1 p.2 i) (ok-inj refl last)
            (
              verified,
              found_is,
              unset,
              not_late (seconds c.exp + seconds 900) d.now late,
              read,
              or_error-ok no_risk_class (first c.capabilities) one,
            ),
      )
    where
      not_late : (end now : ℕ) → ltb end now ≡ false → now ≤ end
      not_late end now l = ground arith

  -- A refresh gives a token only for one that verifies but for its end, which is 900 seconds ago at
  -- most, and that is in the registry and not revoked there, and only if the policy pipeline, asked again for the same subject, task and RoE,
  -- allows it. The new token is for the same subject, task, capabilities and risk class, and lives
  -- 900 seconds at most.
  pub refresh_token-reauthorized :
      (clock : Clock) (d : Draw) (request_id raw : Text) (w w' : World) (st st' : State)
      (raw' : Text) (c' : Claims)
      → refresh_token svc k cfg clock d request_id raw w st ≡ (w', (st', ok (raw', c')))
      → (c : Claims) × (capability : Text) × (targets : List Text) × (i : Issued) × IsFit d raw st c
          capability targets i
        × ((authorize svc clock (authz_request request_id c capability targets) w).1.decision
            ≡ Decision.allow)
        × (w' ≡ (authorize svc clock (authz_request request_id c capability targets) w).0)
        × (c'.task_id ≡ c.task_id)
        × (c'.sub ≡ c.sub)
        × (c'.capabilities ≡ c.capabilities)
        × (c'.risk_class ≡ c.risk_class)
        × (c'.exp ≤ c'.iat + 900)
  unfolding refresh_token reauthorized
  refresh_token-reauthorized clock d request_id raw w w' st st' raw' c' h =
      elim (Result-cases (refreshable k cfg d raw st)) [
        | inl (e, n) ↦ absurd (err≢ok (ap (λ p. p.1.1) (rw n at h)))
        | inr ((c, capability, targets), y) ↦
            let out = authorize svc clock (authz_request request_id c capability targets) w in
            let (i, fit) = refreshable-IsFit d raw st c capability targets y in
            let (allowed, made) =
              allow_only out.1.decision
                (successor svc k cfg d c targets out.1.decision_id
                  (loaded_roe (svc.load_roe c.roe_id 0)) st)
                (ap (λ p. p.1) (rw y at h)) in
            let (t, u, v, x, z) =
              successor-IsMinted d c targets out.1.decision_id
                (loaded_roe (svc.load_roe c.roe_id 0)) st st' raw' c' made in
            (
              c,
              capability,
              targets,
              i,
              fit,
              allowed,
              sym (ap (λ p. p.0) (rw y at h)),
              t,
              u,
              v,
              x,
              z,
            )
      ]
    where
      allow_only :
          (decision : Decision) (minted : State × Result Error (Text × Claims))
          → unless_denied decision st minted ≡ (st', ok (raw', c'))
          → (decision ≡ Decision.allow) × (minted ≡ (st', ok (raw', c')))
      allow_only Decision.allow minted e = (refl, e)
      allow_only Decision.deny minted e = absurd (err≢ok (ap (λ p. p.1) e))
