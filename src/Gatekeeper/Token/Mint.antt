-- ===== src/Gatekeeper/Token/Mint.antt =====
-- token/service.go: `MintToken`, and the signing, registering and auditing of any new token.
use aegisbastion.Common.{
  ℕ, ◌+◌, ◌-◌, ◌/◌, ◌%◌, ◌&&◌, ◌||◌, Bool, not, List, [], ◌∷◌, ◌++◌, Option, none, Text, codes,
  text_eq, is_empty, length, if◌then◌else◌, ltb, Result, ok, err, ◌>>=◌, ◌>>◌, reject_if,
}
use Prim.Native.Nat.{◌^◌}
use aegisbastion.Gatekeeper.Capreg.{RiskClass, parse_risk_class, risk_class_string}
use aegisbastion.Gatekeeper.Types.{Roe}
use aegisbastion.Gatekeeper.Policy.{Services, DecisionRow}
use aegisbastion.Gatekeeper.Token.Types.{
  Claims, ScopeManifest, MintSpec, Codec, Config, State, Draw, Error, audited_mint, missing_field,
  no_decision, not_allowed, wrong_task, not_a_watch, wrong_targets, roe_not_active, window_closed,
  ttl_too_long, no_targets, register_failed,
}
use aegisbastion.Gatekeeper.Token.Manifest.{put_manifest, same_target_set, or_error}
use aegisbastion.Gatekeeper.Token.Jwt.{sign_jwt}
use aegisbastion.Gatekeeper.Token.Terms.{
  load_decision, token_rate_caps, loaded_roe, is_active, resolve_approval, usable, is_deny, is_r1,
}

pub record MintRequest : Type 0 where
  pub decision_id : Text
  pub task_id : Text
  pub subject : Text
  pub targets : List Text
  pub scope_bound : Bool

-- The lifetime's end: the service's, cut to a limit that is not zero.
unfoldable pub expiry : Config → ℕ → ℕ → ℕ
expiry cfg now limit =
    let e = (now + cfg.ttl) / 1000000000 in if ltb 0 limit && ltb limit e then limit else e

module _ (k : Codec) (cfg : Config) where
  unfoldable pub scope_manifest : ℕ → MintSpec → ScopeManifest
  scope_manifest now m = record {
    roe_id = m.roe.roe_id;
    roe_version = m.roe.version;
    resolved_at = k.resolved now;
    domains = m.roe.scope.domains;
    cidrs = m.roe.scope.cidrs;
    explicit_excludes = m.roe.scope.explicit_excludes;
    asset_group_ids = m.roe.scope.asset_group_ids;
    cloud_accounts = m.roe.scope.cloud_accounts;
  }

  -- The manifest's key in the object store and its canonical form.
  unfoldable pub manifest_of : ℕ → Text → MintSpec → Result Error (Text × Option Text)
  unfolding scope_manifest
  manifest_of now jti m =
      if m.scope_bound
      then ok (codes "tokens/" ++ jti ++ codes "/scope.json", k.scope_json (scope_manifest now m))
      else if is_empty m.targets
      then err no_targets
      else ok (
        codes "tokens/" ++ jti ++ codes "/targets.json",
        k.exact_json (record { jti = jti; task_id = m.task_id; targets = m.targets }),
      )

  unfoldable pub claims_for : ℕ → Text → MintSpec → ℕ → Text → Text → Claims
  unfolding expiry
  claims_for now jti m limit key sha = record {
    iss = cfg.issuer;
    aud = cfg.audience;
    jti = jti;
    sub = m.sub;
    task_id = m.task_id;
    roe_id = m.roe.roe_id;
    roe_version = m.roe.version;
    risk_class = m.risk;
    capabilities = m.capabilities;
    targets = record {
      hash_alg = codes "sha256";
      manifest_uri = cfg.uri_prefix ++ key;
      manifest_sha256 = sha;
      count = if m.scope_bound then 0 else length m.targets % 2 ^ 32;
    };
    scope_bound = m.scope_bound;
    rate_caps = m.rate_caps;
    approval_id = m.approval_id;
    iat = now / 1000000000;
    nbf = now / 1000000000;
    exp = expiry cfg now limit;
  }

  -- The manifest in the object store, and the claims that name it.
  unfoldable pub mint_claims :
      Draw → MintSpec → ℕ → State → Result Error (List (Text × Text) × Claims)
  unfolding manifest_of claims_for put_manifest
  mint_claims d m limit st = do
    reject_if (ltb 900 (expiry cfg d.now limit - d.now / 1000000000)) ttl_too_long
    (key, manifest) ← manifest_of d.now d.jti m
    (objects, sha) ← put_manifest k d.puts key manifest st.objects
    ok (objects, claims_for d.now d.jti m limit key sha)

  -- `register` and `auditMint`, once the token is signed.
  unfoldable pub register :
      Draw
      → MintSpec
      → State
      → List (Text × Text)
      → Claims
      → Result Error Text
      → State × Result Error (Text × Claims)
  register d m st objects c (err e) = (record st { objects = objects }, err e)
  register d m st objects c (ok raw) =
      if d.registers
      then (
        record {
          objects = objects;
          issued =
              st.issued
              ++ record {
                claims = c;
                decision_id = m.decision_id;
                kid = cfg.kid;
                revoked_at = none;
              }
                ∷ [];
          effects = st.effects ++ audited_mint c ∷ [];
        },
        ok (raw, c),
      )
      else (record st { objects = objects }, err register_failed)

  unfoldable pub signed :
      Draw
      → MintSpec
      → State
      → Result Error (List (Text × Text) × Claims)
      → State × Result Error (Text × Claims)
  unfolding register sign_jwt
  signed d m st (err e) = (st, err e)
  signed d m st (ok (objects, c)) = register d m st objects c (sign_jwt k cfg.kid cfg.private_key c)

  -- `mint`, on stores that keep each write even if a later one fails.
  unfoldable pub mint : Draw → MintSpec → ℕ → State → State × Result Error (Text × Claims)
  unfolding mint_claims signed
  mint d m limit st = signed d m st (mint_claims d m limit st)

abbrev pub then_mint :
    {Spec : Type 0}
    → State
    → (Spec → State × Result Error (Text × Claims))
    → Result Error Spec
    → State × Result Error (Text × Claims)
then_mint st next (err e) = (st, err e)
then_mint st next (ok m) = next m

module _ (svc : Services) (k : Codec) (cfg : Config) where
  -- The decision that `MintToken` mints on, with its risk class.
  unfoldable pub checked_grant :
      List DecisionRow → MintRequest → Result Error (DecisionRow × RiskClass)
  unfolding load_decision
  checked_grant decisions req = do
    reject_if (is_empty req.decision_id || is_empty req.task_id || is_empty req.subject)
        missing_field
    d ← or_error no_decision (load_decision req.decision_id decisions)
    reject_if (is_deny d.decision) not_allowed
    reject_if (not (text_eq d.task_id req.task_id)) wrong_task
    risk ← usable (parse_risk_class (risk_class_string d.risk_class))
    reject_if
        (req.scope_bound
          && not (
              is_r1 risk
              && (text_eq d.capability (codes "monitor.watch")
                  || text_eq d.capability (codes "monitor.rescan"))))
        not_a_watch
    reject_if (not req.scope_bound && not (same_target_set svc.net d.targets req.targets))
        wrong_targets
    ok (d, risk)

  -- The RoE that it mints under.
  unfoldable pub checked_roe : ℕ → Text → Result Error Roe
  checked_roe now roe_id = do
    roe ← loaded_roe (svc.load_roe roe_id 0)
    reject_if (not (is_active roe.status)) roe_not_active
    reject_if (not (ltb now roe.valid_until)) window_closed
    ok roe

  unfoldable pub spec_of : MintRequest → DecisionRow → RiskClass → Roe → Text → MintSpec
  unfolding token_rate_caps
  spec_of req d risk roe approval_id = record {
    sub = req.subject;
    task_id = req.task_id;
    roe = roe;
    risk = risk_class_string d.risk_class;
    capabilities = d.capability ∷ [];
    approval_id = approval_id;
    rate_caps = token_rate_caps roe.constraints.rate_caps risk d.capability;
    scope_bound = req.scope_bound;
    targets = if req.scope_bound then [] else d.targets;
    decision_id = d.decision_id;
  }

  -- What `MintToken` tests, up to `mint`.
  unfoldable pub mint_spec : ℕ → List DecisionRow → MintRequest → Result Error MintSpec
  unfolding checked_grant checked_roe resolve_approval spec_of
  mint_spec now decisions req = do
    (d, risk) ← checked_grant decisions req
    roe ← checked_roe now d.roe_id
    approval_id ← resolve_approval svc roe risk d.capability d.targets
    ok (spec_of req d risk roe approval_id)

  -- `MintToken`.
  unfoldable pub mint_token :
      Draw → List DecisionRow → MintRequest → State → State × Result Error (Text × Claims)
  unfolding mint_spec mint
  mint_token d decisions req st =
      then_mint st (λ m. mint k cfg d m 0 st) (mint_spec d.now decisions req)
