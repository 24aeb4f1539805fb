-- ===== src/Gatekeeper/Token/Renewal.antt =====
-- token/service.go: a token that is refreshed, or revoked.
use aegisbastion.Common.{
  ℕ, ◌+◌, ◌&&◌, Bool, true, false, not, List, [], ◌∷◌, ◌++◌, some, Text, codes, text_eq, is_empty,
  if◌then◌else◌, ltb, Result, ok, err, ◌>>=◌, ◌>>◌, reject_if,
}
use aegisbastion.Gatekeeper.Types.{Roe, AuthorizationRequest, Decision}
use aegisbastion.Gatekeeper.Policy.{Services, Clock, World, authorize}
use aegisbastion.Gatekeeper.Token.Types.{
  Claims, MintSpec, Codec, Config, Issued, State, Draw, Error, broadcast, audited_revocation,
  missing_field, no_risk_class, bad_manifest, beyond_grace, not_authorized,
}
use aegisbastion.Gatekeeper.Token.Manifest.{fetch_manifest, or_error}
use aegisbastion.Gatekeeper.Token.Jwt.{seconds}
use aegisbastion.Gatekeeper.Token.Terms.{loaded_roe}
use aegisbastion.Gatekeeper.Token.Mint.{mint}
use aegisbastion.Gatekeeper.Token.Exchange.{verify_and_load, first, is_set}

module _ (k : Codec) (cfg : Config) where
  -- `manifestTargets`.
  unfoldable pub manifest_targets : Claims → List (Text × Text) → Result Error (List Text)
  unfolding fetch_manifest
  manifest_targets c objects =
      if c.scope_bound then ok ((codes "scope:sha256:" ++ c.targets.manifest_sha256) ∷ []) else (do
        raw ← fetch_manifest k objects c.targets.manifest_uri c.targets.manifest_sha256
        em ← or_error bad_manifest (k.exact_of raw)
        ok em.targets)

  -- What `RefreshToken` tests before it asks.
  unfoldable pub refreshable : Draw → Text → State → Result Error (Claims × Text × List Text)
  unfolding verify_and_load manifest_targets
  refreshable d raw st = do
    reject_if (is_empty raw) missing_field
    (c, decision_id) ← verify_and_load k cfg d raw true st.issued
    reject_if (ltb (seconds c.exp + seconds 900) d.now) beyond_grace
    targets ← manifest_targets c st.objects
    capability ← or_error no_risk_class (first c.capabilities)
    ok (c, capability, targets)

abbrev pub unless_denied :
    Decision → State → (State × Result Error (Text × Claims)) → State × Result Error (Text × Claims)
unless_denied Decision.deny st minted = (st, err not_authorized)
unless_denied Decision.allow st minted = minted

-- The request with which `RefreshToken` asks the policy service again.
unfoldable pub authz_request : Text → Claims → Text → List Text → AuthorizationRequest
authz_request request_id c capability targets = record {
  request_id = request_id;
  principal = some (record { kind = codes "service"; id = c.sub; spiffe_id = [] });
  task = record { task_id = c.task_id; parent_plan_id = []; commander = [] };
  capability = capability;
  targets = targets;
  roe_id = c.roe_id;
  roe_version = c.roe_version;
  source_region = [];
  data_classes_touched = [];
  dry_run = false;
}

-- The same subject, task and capabilities, under the RoE as it is now.
unfoldable pub successor_spec : Claims → List Text → Text → Roe → MintSpec
successor_spec c targets decision_id roe = record {
  sub = c.sub;
  task_id = c.task_id;
  roe = roe;
  risk = c.risk_class;
  capabilities = c.capabilities;
  approval_id = c.approval_id;
  rate_caps = c.rate_caps;
  scope_bound = c.scope_bound;
  targets = if c.scope_bound then [] else targets;
  decision_id = decision_id;
}

module _ (svc : Services) (k : Codec) (cfg : Config) where
  -- The new token.
  unfoldable pub successor :
      Draw
      → Claims
      → List Text
      → Text
      → Result Error Roe
      → State
      → State × Result Error (Text × Claims)
  unfolding mint successor_spec
  successor d c targets decision_id (err e) st = (st, err e)
  successor d c targets decision_id (ok roe) st =
      mint k cfg d (successor_spec c targets decision_id roe) 0 st

  unfoldable pub reauthorized :
      Clock
      → Draw
      → Text
      → Result Error (Claims × Text × List Text)
      → World
      → State
      → World × (State × Result Error (Text × Claims))
  unfolding successor authz_request
  reauthorized clock d request_id (err e) w st = (w, (st, err e))
  reauthorized clock d request_id (ok (c, capability, targets)) w st =
      let (w', ev) = authorize svc clock (authz_request request_id c capability targets) w in
      (
        w',
        unless_denied ev.decision st
            (successor d c targets ev.decision_id (loaded_roe (svc.load_roe c.roe_id 0)) st),
      )

  -- `RefreshToken`, with the policy service of this process. A denial, which the code answers with
  -- an empty token, is an error of its own here.
  unfoldable pub refresh_token :
      Clock → Draw → Text → Text → World → State → World × (State × Result Error (Text × Claims))
  unfolding refreshable reauthorized
  refresh_token clock d request_id raw w st =
      reauthorized clock d request_id (refreshable k cfg d raw st) w st

-- `UPDATE … SET revoked_at = now() WHERE jti = $1 AND revoked_at IS NULL`, and whether a row was.
unfoldable pub set_revoked : Text → ℕ → List Issued → List Issued × Bool
set_revoked jti now [] = ([], false)
set_revoked jti now (i ∷ is) =
    let (rest, some_row) = set_revoked jti now is in
    if text_eq i.claims.jti jti && not (is_set i.revoked_at)
    then (record i { revoked_at = some now } ∷ rest, true)
    else (i ∷ rest, some_row)

-- `RevokeToken`: a broadcast or an audit record that fails is only logged.
unfoldable pub revoke_token : Draw → Text → Text → State → State × Result Error Bool
unfolding set_revoked
revoke_token d jti reason st =
    let (issued, some_row) = set_revoked jti d.now st.issued in
    if is_empty jti
    then (st, err missing_field)
    else if some_row
    then (
      record st {
        issued = issued;
        effects = st.effects ++ broadcast jti reason ∷ audited_revocation jti reason ∷ [];
      },
      ok true,
    )
    else (st, ok false)
